-- ===== src/Approval/Tests.antt =====
-- The theorems on one approval at concrete inputs.
use hermes_security_skills.Base.{List, [], arith, false, ok, refl, ◌∷◌, ◌≡◌}
use hermes_security_skills.Approval.{
  Approval, Call, consume, consume_at, new, remaining, revoke, run, step, withdraw,
}
use hermes_security_skills.Approval.Budget.{IsWithin, new-IsWithin, run-budget}
use hermes_security_skills.Base.Int.{pos, ◌+ℤ◌, ◌≤ℤ◌}
use hermes_security_skills.Base.Text.{codes}

abbrev two_left : Approval
two_left = record {
  capability = codes "request_replay";
  host = codes "example.com";
  method = codes "GET";
  path = codes "/";
  max_requests = pos 3;
  account_ref = [];
  expires_at = 100;
  risk = codes "low";
  used = pos 1;
  is_revoked = false;
}

within : IsWithin two_left
within = omega arith

new_approval :
    new
      (codes "request_replay")
      (codes "example.com")
      (codes "GET")
      (codes "/")
      (pos 3)
      []
      100
      (codes "low")
    ≡ ok (record two_left { used = pos 0 })
unfolding new
new_approval = refl

new-IsWithin_example :
    IsWithin (record two_left { used = pos 0 })
    × (pos 0 ≡ pos 0)
    × (pos 3 ≡ pos 3)
    × (pos 1 ≤ℤ pos 3)
    × (false ≡ false)
new-IsWithin_example =
    new-IsWithin (codes "request_replay") (codes "example.com") (codes "GET") (codes "/") (pos 3) []
      100 (codes "low") (record two_left { used = pos 0 }) new_approval

abbrev mixed : List Call
mixed = consume 5 ∷ withdraw ∷ consume 6 ∷ []

run-mixed : (run mixed two_left).1 ≡ 1
unfolding run step consume_at revoke
run-mixed = refl

run-budget_example :
    IsWithin (run mixed two_left).0
    × ((run mixed two_left).0.used ≡ two_left.used +ℤ pos (run mixed two_left).1)
    × (remaining two_left ≡ remaining (run mixed two_left).0 +ℤ pos (run mixed two_left).1)
    × (pos (run mixed two_left).1 ≤ℤ remaining two_left)
run-budget_example = run-budget mixed two_left within
