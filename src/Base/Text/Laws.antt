-- ===== src/Base/Text/Laws.antt =====
-- Laws of the text functions.
use Prim.Native.Nat.{ℕ}
use mathlib.Core.Path.{◌≡◌, refl}
use mathlib.Core.Logic.{◌↔◌, ◌⊎◌, ◌≢◌, inl, inr}
use mathlib.Core.Bool.{true, false}
use mathlib.Core.List.{[], ◌∷◌, map}
use native.Mathlib.Omega.{arith}
use hermes_security_skills.Base.Tests.{Bool-cases}
use hermes_security_skills.Base.Text.{
  Text, ◌==◌, is_blank, is_empty, trim_space, upper_rune, to_upper,
}

eq_of_== : (s t : Text) → s == t ≡ true → s ≡ t
unfolding ◌==◌
eq_of_== [] [] h = refl
eq_of_== [] (b ∷ t) h = cc
eq_of_== (a ∷ s) [] h = cc
eq_of_== (a ∷ s) (b ∷ t) h = ground (arith, eq_of_== s t)

pub ==_refl : (s : Text) → s == s ≡ true
unfolding ◌==◌
==_refl [] = refl
==_refl (a ∷ s) = ground (arith, ==_refl s)

pub ==_iff : (s t : Text) → (s == t ≡ true) ↔ (s ≡ t)
==_iff s t = (eq_of_== s t, λ e. rw e (==_refl t))

pub ==_cases : (s t : Text) → ((s == t ≡ true) × (s ≡ t)) ⊎ ((s == t ≡ false) × (s ≢ t))
==_cases s t = elim (Bool-cases (s == t)) [
  | inl e ↦ inl (e, eq_of_== s t e)
  | inr e ↦ inr (e, λ p. ground (arith, ==_iff s t))
]

upper_rune_idem : (c : ℕ) → upper_rune (upper_rune c) ≡ upper_rune c
unfolding upper_rune
upper_rune_idem c = ground arith

map_idem : (f : ℕ → ℕ) → ((c : ℕ) → f (f c) ≡ f c) → (s : Text) → map f (map f s) ≡ map f s
map_idem f h [] = refl
map_idem f h (c ∷ s) = cc (h c, map_idem f h s)

pub to_upper_idem : (s : Text) → to_upper (to_upper s) ≡ to_upper s
unfolding to_upper
to_upper_idem s = map_idem upper_rune upper_rune_idem s

-- What is not blank is not empty.
pub not-empty_of_not-blank : (s : Text) → is_blank s ≡ false → is_empty s ≡ false
unfolding trim_space
not-empty_of_not-blank [] h = cc
not-empty_of_not-blank (c ∷ s) h = refl

pub ==_apart : (s t : Text) → s == t ≡ false → t == s ≡ false
==_apart s t h = elim (==_cases t s) [
  | inl (_, e) ↦ absurd (ground (arith, ==_iff s t, e))
  | inr (e, _) ↦ e
]
