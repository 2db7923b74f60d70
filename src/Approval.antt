-- ===== src/Approval.antt =====
-- internal/approval/approval.go: one scoped approval with a request budget. A time is a number of
-- nanoseconds since year 1, which is Go's zero time. A method that holds the mutex is one step on
-- the record; a method that can fail returns its error beside the record.
pub mod Budget
pub mod Store
mod Tests
use hermes_security_skills.Base.{
  Bool, List, Result, [], eqb, err, false, if◌then◌else◌, ltb, not, ok, true, ℕ, ◌+◌, ◌||◌, ◌∷◌,
}
use hermes_security_skills.Base.Int.{lebℤ, ltbℤ, pos, ℤ, ◌+ℤ◌, ◌-ℤ◌}
use hermes_security_skills.Base.Text.{Text, is_empty}

abbrev pub Time : Type 0
Time = ℕ

pub data ApprovalError : Type 0 where
  missing_field bad_max_requests missing_expires_at missing_risk : ApprovalError
  expired revoked exhausted : ApprovalError

pub record Approval : Type 0 where
  pub capability : Text
  pub host : Text
  pub method : Text
  pub path : Text
  pub max_requests : ℤ
  pub account_ref : Text
  pub expires_at : Time
  pub risk : Text
  pub used : ℤ
  pub is_revoked : Bool

unfoldable pub new :
    (capability host method path : Text) (max_requests : ℤ) (account_ref : Text) (expires_at : Time)
    (risk : Text)
    → Result ApprovalError Approval
new capability host method path max_requests account_ref expires_at risk =
    if is_empty capability || is_empty host || is_empty method || is_empty path
    then err missing_field
    else if lebℤ max_requests (pos 0)
    then err bad_max_requests
    else if eqb expires_at 0
    then err missing_expires_at
    else if is_empty risk
    then err missing_risk
    else ok (record {
      capability = capability;
      host = host;
      method = method;
      path = path;
      max_requests = max_requests;
      account_ref = account_ref;
      expires_at = expires_at;
      risk = risk;
      used = pos 0;
      is_revoked = false;
    })

-- IsValid and validLocked
unfoldable pub is_valid : Approval → Time → Bool
is_valid a now =
    if a.is_revoked
    then false
    else if not (ltb now a.expires_at)
    then false
    else ltbℤ a.used a.max_requests

unfoldable pub revoke : Approval → Approval
revoke a = record a { is_revoked = true }

unfoldable pub consume_at : Time → Approval → Result ApprovalError (Unit {0}) × Approval
consume_at now a =
    if a.is_revoked
    then (err revoked, a)
    else if not (ltb now a.expires_at)
    then (err expired, a)
    else if lebℤ a.max_requests a.used
    then (err exhausted, a)
    else (ok tt, record a { used = a.used +ℤ pos 1 })

unfoldable pub remaining : Approval → ℤ
remaining a = a.max_requests -ℤ a.used

-- The calls of the goroutines that share one approval, in the order in which they take the mutex.
pub data Call : Type 0 where
  consume : Time → Call
  withdraw : Call

abbrev pub count_ok : Result ApprovalError (Unit {0}) → ℕ
count_ok (ok _) = 1
count_ok (err _) = 0

-- One call: the approval afterwards, and 1 if a request was granted.
unfoldable pub step : Call → Approval → Approval × ℕ
step (consume now) a = let (r, a') = consume_at now a in (a', count_ok r)
step withdraw a = (revoke a, 0)

-- A whole history: the approval afterwards, and how many requests were granted.
unfoldable pub run : List Call → Approval → Approval × ℕ
run [] a = (a, 0)
run (c ∷ cs) a = let (a', n) = step c a in let (a'', m) = run cs a' in (a'', n + m)
