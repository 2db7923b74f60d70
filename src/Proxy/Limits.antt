-- ===== src/Proxy/Limits.antt =====
-- internal/proxycore/limits.go: the request budget, and the token bucket over abstract floats.
pub mod Laws
use hermes_security_skills.Base.{Bool, false, if◌then◌else◌, true}
use hermes_security_skills.Approval.{Time}
use hermes_security_skills.Base.Int.{diff, lebℤ, pos, ℤ, ◌-ℤ◌}

pub record Budget : Type 0 where
  pub left : ℤ

unfoldable pub new_budget : ℤ → Budget
new_budget max_requests = record { left = max_requests }

unfoldable pub take : Budget → Bool × Budget
take b = if lebℤ b.left (pos 0) then (false, b) else (true, record { left = b.left -ℤ pos 1 })

-- Go's float64: its operations, and the conversion of an int and of a duration to seconds.
pub record Float : Type 1 where
  pub F : Type 0
  pub of_int : ℤ → F
  pub seconds : ℤ → F
  pub add : F → F → F
  pub sub : F → F → F
  pub mul : F → F → F
  pub less : F → F → Bool

module _ (fl : Float) where
  open fl use {F, of_int, seconds, add, sub, mul, less}

  pub record TokenBucket : Type 0 where
    pub rate : F
    pub burst : F
    pub tokens : F
    pub last : Time

  unfoldable pub new_token_bucket : Time → ℤ → TokenBucket
  new_token_bucket now rps =
      let r = of_int rps in
      let r' = if less r (of_int (pos 1)) then of_int (pos 1) else r in
      record { rate = r'; burst = r'; tokens = r'; last = now }

  -- The refill, capped at the burst.
  unfoldable pub refill : Time → TokenBucket → TokenBucket
  refill now tb =
      let elapsed = seconds (diff now tb.last) in
      let sum = add tb.tokens (mul elapsed tb.rate) in
      if less (of_int (pos 0)) elapsed
      then record tb { tokens = if less tb.burst sum then tb.burst else sum; last = now }
      else tb

  unfoldable pub bucket_allow : Time → TokenBucket → Bool × TokenBucket
  unfolding refill
  bucket_allow now tb =
      let tb' = refill now tb in
      if less tb'.tokens (of_int (pos 1))
      then (false, tb')
      else (true, record tb' { tokens = sub tb'.tokens (of_int (pos 1)) })
