-- ===== src/Approval/Budget.antt =====
-- internal/approval/approval.go: the request budget of one approval, over histories of calls.
use Prim.Native.Nat.{min}
use hermes_security_skills.Base.{
  All, List, [], arith, false, length, ok, refl, suc, true, zero, ℕ, ◌<◌, ◌↔◌, ◌∙◌, ◌∷◌, ◌≡◌,
}
use hermes_security_skills.Approval.{
  Approval, Call, Time, consume, consume_at, is_valid, new, remaining, revoke, run, step, withdraw,
}
use hermes_security_skills.Base.Int.{
  +ℤ_parts, eq_of_parts, int_laws, parts_eq, pos, ℤ, ◌+ℤ◌, ◌-ℤ◌, ◌≤ℤ◌, -ℤ_parts,
}
use hermes_security_skills.Base.Text.{Text}

-- The number of used requests lies between 0 and the budget.
pub record IsWithin (a : Approval) : Type 0 where
  pub low : pos 0 ≤ℤ a.used
  pub high : a.used ≤ℤ a.max_requests

-- A new approval has a positive budget of which nothing is used, and is not revoked.
pub new-IsWithin :
    (capability host method path : Text) (max_requests : ℤ) (account_ref : Text) (expires_at : Time)
    (risk : Text) (a : Approval)
    → new capability host method path max_requests account_ref expires_at risk ≡ ok a
    → IsWithin a
      × (a.used ≡ pos 0)
      × (a.max_requests ≡ max_requests)
      × (pos 1 ≤ℤ max_requests)
      × (a.is_revoked ≡ false)
unfolding new
new-IsWithin c h m p n r e k a q = ground arith

-- A request is granted at a time exactly when the approval is valid then.
pub consume_at_iff :
    (now : Time) (a : Approval) → ((consume_at now a).0 ≡ ok tt) ↔ (is_valid a now ≡ true)
unfolding consume_at is_valid
consume_at_iff now a = ground arith

step-IsWithin : (c : Call) (a : Approval) → IsWithin a → IsWithin (step c a).0
unfolding step consume_at revoke
step-IsWithin (consume now) a w = ground (arith, +ℤ_parts a.used (pos 1))
step-IsWithin withdraw a w = ground arith

step-used : (c : Call) (a : Approval) → (step c a).0.used ≡ a.used +ℤ pos (step c a).1
unfolding step consume_at revoke
step-used (consume now) a =
    ground (arith, +ℤ_parts a.used (pos 0), eq_of_parts a.used (a.used +ℤ pos 0))
step-used withdraw a = omega int_laws

step-max_requests : (c : Call) (a : Approval) → (step c a).0.max_requests ≡ a.max_requests
unfolding step consume_at revoke
step-max_requests (consume now) a = ground arith
step-max_requests withdraw a = refl

pub run-used : (cs : List Call) (a : Approval) → (run cs a).0.used ≡ a.used +ℤ pos (run cs a).1
unfolding run
run-used [] a = omega int_laws
run-used (c ∷ cs) a =
    omega (int_laws, parts_eq (step-used c a), parts_eq (run-used cs (step c a).0))

run-IsWithin : (cs : List Call) (a : Approval) → IsWithin a → IsWithin (run cs a).0
unfolding run
run-IsWithin [] a w = w
run-IsWithin (c ∷ cs) a w = run-IsWithin cs (step c a).0 (step-IsWithin c a w)

run-max_requests : (cs : List Call) (a : Approval) → (run cs a).0.max_requests ≡ a.max_requests
unfolding run
run-max_requests [] a = refl
run-max_requests (c ∷ cs) a = run-max_requests cs (step c a).0 ∙ step-max_requests c a

-- In every order of calls, the used requests grow by exactly the number granted, the budget is never
-- exceeded, and what remains falls by exactly the number granted.
pub run-budget :
    (cs : List Call) (a : Approval)
    → IsWithin a
    → IsWithin (run cs a).0
      × ((run cs a).0.used ≡ a.used +ℤ pos (run cs a).1)
      × (remaining a ≡ remaining (run cs a).0 +ℤ pos (run cs a).1)
      × (pos (run cs a).1 ≤ℤ remaining a)
unfolding remaining
run-budget cs a w =
    let w' = run-IsWithin cs a w in
    let u = run-used cs a in
    let m = run-max_requests cs a in
    let before = -ℤ_parts a.max_requests a.used in
    let after = -ℤ_parts (run cs a).0.max_requests (run cs a).0.used in
    let sum = +ℤ_parts (remaining (run cs a).0) (pos (run cs a).1) in
    (
      w',
      u,
      omega (int_laws, parts_eq m, parts_eq u, before, after, sum),
      omega (int_laws, parts_eq m, parts_eq u, before, after, sum),
    )

abbrev pub consumes : List Time → List Call
consumes [] = []
consumes (t ∷ ts) = consume t ∷ consumes ts

-- Requests that all come before the expiry of an approval that is not revoked: exactly as many are
-- granted as the smaller of their number and the budget that remains.
pub run-consumes :
    (ts : List Time) (a : Approval) (left : ℕ)
    → a.is_revoked ≡ false
    → All (λ t. t < a.expires_at) ts
    → remaining a ≡ pos left
    → (run (consumes ts) a).1 ≡ min (length ts) left
unfolding run step consume_at remaining
run-consumes [] a left r e b = omega arith
run-consumes (t ∷ ts) a zero r e b =
    ground (arith, run-consumes ts a zero r e.1 b, -ℤ_parts a.max_requests a.used)
run-consumes (t ∷ ts) a (suc left) r e b = ground (
  arith,
  run-consumes ts (record a { used = a.used +ℤ pos 1 }) left r e.1,
  -ℤ_parts a.max_requests a.used,
  -ℤ_parts a.max_requests (a.used +ℤ pos 1),
  +ℤ_parts a.used (pos 1),
  eq_of_parts (a.max_requests -ℤ (a.used +ℤ pos 1)) (pos left),
)
