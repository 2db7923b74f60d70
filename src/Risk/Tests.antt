-- ===== src/Risk/Tests.antt =====
-- The risk theorems at concrete operations.
use hermes_security_skills.Base.{[], err, false, ok, refl, some, true, ◌≡◌}
use hermes_security_skills.Base.Text.{codes, to_upper, trim_space, ◌==◌}
use hermes_security_skills.Risk.{
  Operation, action_approval_required, classify, default_action, empty_level, level_critical,
  level_high, level_low, level_medium, level_rank, passive_methods, unknown_level,
}
use hermes_security_skills.Risk.Laws.{AsksLess}

abbrev scan : Operation
scan = record {
  method = codes " get ";
  replay = true;
  upload = false;
  concurrency = false;
  credential_attack = false;
  exfiltration = false;
  persistence = false;
  lateral_movement = false;
}

abbrev stuffing : Operation
stuffing = record scan { credential_attack = true; concurrency = true }

classify-scan : (classify scan ≡ level_medium) × (classify stuffing ≡ level_critical)
unfolding classify passive_methods to_upper trim_space ◌==◌
classify-scan = (refl, refl)

default_actions :
    (default_action (codes "high") ≡ ok action_approval_required)
    × (default_action (codes "HIGH") ≡ err unknown_level)
    × (default_action [] ≡ err empty_level)
unfolding default_action ◌==◌
default_actions = (refl, refl, refl)

stuffing_asks_more : AsksLess scan stuffing
stuffing_asks_more = record {
  method = refl;
  replay = λ h. refl;
  upload = λ h. h;
  concurrency = λ h. refl;
  credential_attack = λ h. refl;
  exfiltration = λ h. h;
  persistence = λ h. h;
  lateral_movement = λ h. h;
}

low_rank : level_rank level_low ≡ some 1
unfolding level_rank ◌==◌
low_rank = refl

high_rank : level_rank level_high ≡ some 3
unfolding level_rank ◌==◌
high_rank = refl
