-- ===== src/Risk.antt =====
-- internal/risk: the risk level of an operation, the default action of a level, and the higher of
-- two levels. A level and an action are texts, as in the source; an error is the constructor that
-- stands for its message.
pub mod Laws
mod Tests
use hermes_security_skills.Base.{
  Bool, Option, Result, err, if◌then◌else◌, leb, none, not, ok, some, ℕ, ◌&&◌, ◌>>=◌, ◌>>◌, ◌||◌,
}
use hermes_security_skills.Base.Text.{Text, codes, is_empty, to_upper, trim_space, ◌==◌}
use hermes_security_skills.Capability.Tests.{replay}

abbrev pub level_low : Text
level_low = codes "low"

abbrev pub level_medium : Text
level_medium = codes "medium"

abbrev pub level_high : Text
level_high = codes "high"

abbrev pub level_critical : Text
level_critical = codes "critical"

abbrev pub action_automatic : Text
action_automatic = codes "automatic"

abbrev pub action_conditional : Text
action_conditional = codes "conditional"

abbrev pub action_approval_required : Text
action_approval_required = codes "approval_required"

abbrev pub action_disabled : Text
action_disabled = codes "disabled"

pub record Operation : Type 0 where
  pub method : Text
  pub replay : Bool
  pub upload : Bool
  pub concurrency : Bool
  pub credential_attack : Bool
  pub exfiltration : Bool
  pub persistence : Bool
  pub lateral_movement : Bool

unfoldable pub passive_methods : Text → Bool
passive_methods m = m == codes "GET" || m == codes "HEAD" || m == codes "OPTIONS"

unfoldable pub classify : Operation → Text
classify op =
    if op.credential_attack || op.exfiltration || op.persistence || op.lateral_movement
    then level_critical
    else let m = to_upper (trim_space op.method) in
      if not (is_empty m) && not (passive_methods m)
      then level_high
      else if op.upload || op.concurrency
      then level_high
      else if op.replay
      then level_medium
      else level_low

pub data RiskError : Type 0 where
  empty_level unknown_level : RiskError

unfoldable pub default_action : Text → Result RiskError Text
default_action l =
    if l == level_low
    then ok action_automatic
    else if l == level_medium
    then ok action_conditional
    else if l == level_high
    then ok action_approval_required
    else if l == level_critical
    then ok action_disabled
    else if is_empty l
    then err empty_level
    else err unknown_level

-- The map `levelRank`; a missing key is `none`.
unfoldable pub level_rank : Text → Option ℕ
level_rank l =
    if l == level_low
    then some 1
    else if l == level_medium
    then some 2
    else if l == level_high
    then some 3
    else if l == level_critical
    then some 4
    else none

abbrev pub rank_of : Text → Result RiskError ℕ
rank_of l = elim (level_rank l) [ none ↦ err unknown_level | some n ↦ ok n ]

unfoldable pub max_level : Text → Text → Result RiskError Text
max_level a b = do ra ← rank_of a; rb ← rank_of b; if leb rb ra then ok a else ok b
