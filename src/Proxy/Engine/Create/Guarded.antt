-- ===== src/Proxy/Engine/Create/Guarded.antt =====
-- internal/proxycore/engine.go: an engine that NewEngine makes, with the scope matcher of
-- internal/scope.
use mathlib.Core.Path.{subst}
use hermes_security_skills.Base.{
  >>=-eq-ok, All, All-map, Bool, List, Result-cases, ap, arith, guard-eq-ok, inl, inr, length, not,
  ok, ok-injective, refl, some, true, ◌∙◌, ◌≡◌, ◌≤◌,
}
use hermes_security_skills.Base.Int.{pos_part, ℤ}
use hermes_security_skills.Base.Text.{Text}
use hermes_security_skills.Proxy.Bundle.{Bundle}
use hermes_security_skills.Proxy.Engine.{Engine, Hop, Request, World}
use hermes_security_skills.Proxy.Engine.Create.{
  checker_for, fresh, new_engine, no_evidence_dir, scope_allows,
}
use hermes_security_skills.Proxy.Engine.Execute.{execute}
use hermes_security_skills.Proxy.Engine.Execute.Results.{
  execute-InScope, execute_within_budget, outcome_memory,
}
use hermes_security_skills.Proxy.Engine.Loop.Policy.{InScope}
use hermes_security_skills.Proxy.Engine.Loop.Rounds.{slots, ℤ-cases}
use hermes_security_skills.Proxy.Limits.{Budget, new_budget}
use hermes_security_skills.Scope.Allowlist.{HostPort, Net, new_checker}
use hermes_security_skills.Scope.Check.{check}

scope_allows-check :
    (net : Net) (allowed : List HostPort) (raw : Text)
    → scope_allows net allowed raw ≡ true
    → check net allowed raw ≡ ok tt
unfolding scope_allows
scope_allows-check net allowed raw h = elim (Result-cases (check net allowed raw)) [
  | inl (_, f) ↦ f
  | inr (_, f) ↦ absurd (ground arith)
]

slots-pos_part : (budget : Budget) → slots budget ≡ pos_part budget.left
unfolding slots
slots-pos_part budget = elim (ℤ-cases budget.left) [
  | inl (n, h) ↦ rw (h, slots) refl
  | inr (n, h) ↦ rw (h, slots) refl
]

-- The parts of an engine come from the bundle.
pub record IsEngineOf (net : Net) (b : Bundle) (allowed : List HostPort) (e : Engine)
    (budget : Budget) : Type 0 where
  pub entries : new_checker net b.allowed_hosts ≡ ok allowed
  pub scope : e.in_scope ≡ scope_allows net allowed
  pub bundle : e.bundle ≡ b
  pub left : budget.left ≡ b.max_requests

checker_for-new_checker :
    (net : Net) (b : Bundle) (allowed : List HostPort)
    → checker_for net b ≡ ok allowed
    → new_checker net b.allowed_hosts ≡ ok allowed
unfolding checker_for
checker_for-new_checker net b allowed h = elim (Result-cases (new_checker net b.allowed_hosts)) [
  | inl (es, f) ↦ f ∙ ap ok (ok-injective (rw (f, checker_for) at h))
  | inr (_, f) ↦ absurd (ground arith)
]

new_engine-IsEngineOf :
    (net : Net) (b : Bundle) (has_dir : Bool) (flag : ℤ) (made : Engine × Budget × ℤ)
    → new_engine net (some b) has_dir flag ≡ ok made
    → (allowed : List HostPort) × IsEngineOf net b allowed made.0 made.1
unfolding new_engine new_budget
new_engine-IsEngineOf net b has_dir flag made h =
    let (allowed, entries, h1) = >>=-eq-ok (checker_for net b) _ h in
    let (_, h2) = guard-eq-ok (not has_dir) no_evidence_dir _ h1 in
    (
      allowed,
      subst (λ (x : Engine × Budget × ℤ). IsEngineOf net b allowed x.0 x.1) (ok-injective h2)
          (record {
            entries = checker_for-new_checker net b allowed entries;
            scope = refl;
            bundle = refl;
            left = refl;
          }),
    )

-- An engine that NewEngine makes of a bundle keeps the bundle's policy: after any execution from its
-- first state, each request that was sent passes Check with the entries that the bundle allows, and
-- there are at most as many as the bundle's number of requests.
pub new_engine-Guarded :
    (net : Net) (b : Bundle) (has_dir : Bool) (flag : ℤ) (made : Engine × Budget × ℤ) (w : World)
    (limit : w.Limit) (req : Request)
    → new_engine net (some b) has_dir flag ≡ ok made
    → (allowed : List HostPort) × (new_checker net b.allowed_hosts ≡ ok allowed)
      × All
          (λ (h : Hop w). check net allowed (w.show h.url) ≡ ok tt)
          (outcome_memory w made.0 (execute w made.0 req (fresh w made.1 limit))).log
      × (length (outcome_memory w made.0 (execute w made.0 req (fresh w made.1 limit))).log
          ≤ pos_part b.max_requests)
new_engine-Guarded net b has_dir flag made w limit req h =
    let (allowed, is_engine) = new_engine-IsEngineOf net b has_dir flag made h in
    let start = fresh w made.1 limit in
    let end = outcome_memory w made.0 (execute w made.0 req start) in
    let slots_left = slots-pos_part made.1 ∙ ap (λ z. pos_part z) is_engine.left in
    (
      allowed,
      is_engine.entries,
      All-map (InScope w made.0) (λ (h : Hop w). check net allowed (w.show h.url) ≡ ok tt)
          (λ h scope.
            scope_allows-check net allowed (w.show h.url)
              (subst (λ (f : Text → Bool). f (w.show h.url) ≡ true) is_engine.scope scope))
          end.log (execute-InScope w made.0 req start tt),
      omega (arith, execute_within_budget w made.0 req start, slots_left),
    )
