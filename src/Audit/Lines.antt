-- ===== src/Audit/Lines.antt =====
-- internal/audit/audit.go: the lines of a log that has got one more, and a part of a line.
use hermes_security_skills.Base.{
  Bool-cases, List, [], ap, arith, eqb, false, inl, inr, length, refl, suc, zero, ||-eq-false, ℕ,
  ◌++◌, ◌∷◌, ◌≡◌, ◌≢◌,
}
use hermes_security_skills.Audit.{first_runes}
use hermes_security_skills.Base.Text.{Text, contains_rune, put_first, split}

put_first-++ : (c : ℕ) (xs ys : List Text) → xs ≢ [] → put_first c (xs ++ ys) ≡ put_first c xs ++ ys
put_first-++ c [] ys h = absurd (h refl)
put_first-++ c (x ∷ xs) ys h = refl

put_first-ne : (c : ℕ) (xs : List Text) → put_first c xs ≢ []
put_first-ne c [] h = cc
put_first-ne c (x ∷ xs) h = cc

split-ne : (s : Text) → split b'\n' s ≢ []
unfolding split
split-ne [] = λ h. cc
split-ne (c ∷ s) = elim (Bool-cases (eqb c b'\n')) [
  | inl e ↦ rw (e, split) (λ h. cc)
  | inr e ↦ rw (e, split) (put_first-ne c (split b'\n' s))
]

pub split_line : (s t : Text) → split b'\n' (s ++ b'\n' ∷ t) ≡ split b'\n' s ++ split b'\n' t
unfolding split
split_line [] t = refl
split_line (c ∷ s) t = elim (Bool-cases (eqb c b'\n')) [
  | inl e ↦ rw (e, split, split_line s t) refl
  | inr e ↦
      rw (e, split, split_line s t) (put_first-++ c (split b'\n' s) (split b'\n' t) (split-ne s))
]

pub split_plain : (s : Text) → contains_rune s b'\n' ≡ false → split b'\n' s ≡ s ∷ []
unfolding split contains_rune
split_plain [] h = refl
split_plain (c ∷ s) h =
    let (other, rest) = ||-eq-false (eqb c b'\n') (contains_rune s b'\n') h in
    rw (other, split, split_plain s rest) refl

pub not_last : (ls : List Text) → eqb (length (ls ++ [] ∷ [])) 0 ≡ false
not_last [] = refl
not_last (l ∷ ls) = ground arith

pub first_runes-rest : (n : ℕ) (s : Text) → (rest : Text) × (first_runes n s ++ rest ≡ s)
unfolding first_runes
first_runes-rest zero s = (s, refl)
first_runes-rest (suc n) [] = ([], refl)
first_runes-rest (suc n) (c ∷ s) =
    let (rest, whole) = first_runes-rest n s in (rest, ap (λ t. c ∷ t) whole)
