-- ===== src/Proxy/Engine/Create/Limit.antt =====
-- internal/proxycore/engine.go: the limit of an inline body, which NewEngine takes from the bundle
-- and the flag.
use mathlib.Core.Path.{subst}
use hermes_security_skills.Base.{
  >>=-eq-ok, Bool, ap, arith, false, guard-eq-ok, if◌then◌else◌, length, not, ok, ok-injective,
  some, sym, ℕ, ◌&&◌, ◌≡◌, ◌≤◌,
}
use hermes_security_skills.Base.Int.{lebℤ, ltbℤ, negsuc, pos, pos_part, ℤ, ◌≤ℤ◌}
use hermes_security_skills.Proxy.Bundle.{Bundle, max_body_bytes_or_default}
use hermes_security_skills.Proxy.Engine.{Engine, Memory, Request, World, effective_max_body}
use hermes_security_skills.Proxy.Engine.Create.{checker_for, new_engine, no_evidence_dir}
use hermes_security_skills.Proxy.Engine.Execute.{Outcome, done, execute}
use hermes_security_skills.Proxy.Engine.Execute.Delivery.{Delivered, execute-Delivered}
use hermes_security_skills.Proxy.Limits.{Budget, new_budget}
use hermes_security_skills.Scope.Allowlist.{Net}

-- The length of an inline body is at most the limit of the bundle, or 8192 bytes where the bundle has
-- none, and at most the flag where there is one.
pub record IsWithin (b : Bundle) (flag : ℤ) (n : ℕ) : Type 0 where
  pub by_bundle : pos 1 ≤ℤ b.max_body_bytes → pos n ≤ℤ b.max_body_bytes
  pub by_default : b.max_body_bytes ≤ℤ pos 0 → n ≤ 8192
  pub by_flag : pos 1 ≤ℤ flag → pos n ≤ℤ flag

chosen : ℤ → ℤ → ℤ
chosen m flag =
    let most = if lebℤ m (pos 0) then pos 8192 else m in
    if not (lebℤ flag (pos 0)) && ltbℤ flag most then flag else most

chosen-bounds :
    (m flag : ℤ) (n : ℕ)
    → n ≤ pos_part (chosen m flag)
    → (pos 1 ≤ℤ m → pos n ≤ℤ m) × (m ≤ℤ pos 0 → n ≤ 8192) × (pos 1 ≤ℤ flag → pos n ≤ℤ flag)
unfolding chosen
chosen-bounds (pos m) (pos f) n h = (λ k. ground arith, λ k. ground arith, λ k. ground arith)
chosen-bounds (pos m) (negsuc f) n h = (λ k. ground arith, λ k. ground arith, λ k. ground arith)
chosen-bounds (negsuc m) (pos f) n h = (λ k. ground arith, λ k. ground arith, λ k. ground arith)
chosen-bounds (negsuc m) (negsuc f) n h = (λ k. ground arith, λ k. ground arith, λ k. ground arith)

effective_max_body-IsWithin :
    (b : Bundle) (flag : ℤ) (n : ℕ) → n ≤ pos_part (effective_max_body b flag) → IsWithin b flag n
unfolding effective_max_body max_body_bytes_or_default chosen
effective_max_body-IsWithin b flag n h =
    let (by_bundle, by_default, by_flag) = chosen-bounds b.max_body_bytes flag n h in
    record { by_bundle = by_bundle; by_default = by_default; by_flag = by_flag }

new_engine-max_body :
    (net : Net) (b : Bundle) (has_dir : Bool) (flag : ℤ) (made : Engine × Budget × ℤ)
    → new_engine net (some b) has_dir flag ≡ ok made
    → pos_part (effective_max_body b flag) ≡ made.0.max_body
unfolding new_engine new_budget
new_engine-max_body net b has_dir flag made h =
    let (_, _, h1) = >>=-eq-ok (checker_for net b) _ h in
    let (_, h2) = guard-eq-ok (not has_dir) no_evidence_dir _ h1 in
    ap (λ (x : Engine × Budget × ℤ). x.0.max_body) (ok-injective h2)

-- A result whose inline body is within the limits, and is all of the body or marked as cut.
abbrev pub IsLimited : (w : World) (e : Engine) → Bundle → ℤ → Outcome w e → Type 0
IsLimited w e b flag (done r m) =
    IsWithin b flag (length r.response.body)
    × ((r.response.truncated ≡ false) → r.response.body ≡ r.full_body)
IsLimited w e b flag _ = Unit

Delivered-IsLimited :
    (w : World) (e : Engine) (b : Bundle) (flag : ℤ) (req : Request) (o : Outcome w e)
    → pos_part (effective_max_body b flag) ≡ e.max_body
    → Delivered w e req o
    → IsLimited w e b flag o
Delivered-IsLimited w e b flag req (done r m) same (_, (short, _, whole, _), _) = (
  effective_max_body-IsWithin b flag (length r.response.body)
      (subst (λ x. length r.response.body ≤ x) (sym same) short),
  whole,
)
Delivered-IsLimited w e b flag req _ same _ = tt

-- What an engine that NewEngine makes hands out inline is within the limits: at most as long as the
-- limit of the bundle says, or 8192 bytes where the bundle has no positive limit, and at most as the
-- flag says where it is positive; and a body that is not marked as cut is the full one.
pub new_engine-IsLimited :
    (net : Net) (b : Bundle) (has_dir : Bool) (flag : ℤ) (made : Engine × Budget × ℤ) (w : World)
    (req : Request) (m : Memory w)
    → new_engine net (some b) has_dir flag ≡ ok made
    → IsLimited w made.0 b flag (execute w made.0 req m)
new_engine-IsLimited net b has_dir flag made w req m h =
    Delivered-IsLimited w made.0 b flag req (execute w made.0 req m)
      (new_engine-max_body net b has_dir flag made h) (execute-Delivered w made.0 req m)
