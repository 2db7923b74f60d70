-- ===== src/Scope/Wildcard.antt =====
-- internal/scope/scope.go: matchWildcard, and what it accepts.
use mathlib.Core.Path.{ap₂}
use hermes_security_skills.Base.{
  &&-eq-true, Bool, List, [], arith, eqb, false, if◌then◌else◌, length, not, refl, true, ◌&&◌, ◌||◌,
  ◌↔◌, ◌∙◌, ◌∷◌, ◌≡◌,
}
use hermes_security_skills.Base.Text.{Text, codes, contains, is_empty, split, ◌==◌}
use hermes_security_skills.Base.Text.Laws.{==_iff}

-- The loop over the labels behind the first.
unfoldable pub same_labels : List Text → List Text → Bool
same_labels [] [] = true
same_labels (p ∷ ps) (h ∷ hs) = p == h && same_labels ps hs
same_labels _ _ = false

unfoldable pub match_labels : List Text → List Text → Bool
unfolding same_labels
match_labels (p ∷ ps) (h ∷ hs) =
    if not (eqb (length ps) (length hs))
    then false
    else if not (p == codes "*")
    then false
    else if is_empty h || contains h (codes "*")
    then false
    else same_labels ps hs
match_labels _ _ = false

unfoldable pub match_wildcard : Text → Text → Bool
unfolding match_labels
match_wildcard pattern_ host = match_labels (split b'.' pattern_) (split b'.' host)

same_labels_iff : (ps hs : List Text) → (same_labels ps hs ≡ true) ↔ (ps ≡ hs)
unfolding same_labels
same_labels_iff [] [] = (λ h. refl, λ h. refl)
same_labels_iff [] (h ∷ hs) = (λ e. cc, λ e. cc)
same_labels_iff (p ∷ ps) [] = (λ e. cc, λ e. cc)
same_labels_iff (p ∷ ps) (h ∷ hs) = (
  λ e.
      let (here, later) = &&-eq-true (p == h) (same_labels ps hs) e in
      ap₂ (λ (x : Text) (xs : List Text). x ∷ xs) ((==_iff p h).0 here)
        ((same_labels_iff ps hs).0 later),
  λ e. ground (arith, ==_iff p h, (same_labels_iff ps hs).1),
)

-- The labels of the host are one label, neither empty nor with a `*`, and those of the pattern
-- behind its `*`.
pub record Covers (pattern_ host : Text) : Type 0 where
  pub label : Text
  pub rest : List Text
  pub pattern_labels : split b'.' pattern_ ≡ codes "*" ∷ rest
  pub host_labels : split b'.' host ≡ label ∷ rest
  pub not_empty : is_empty label ≡ false
  pub no_star : contains label (codes "*") ≡ false

-- A decision of `match_labels`, in terms of its tests.
match_labels_sound :
    (p h : Text) (ps hs : List Text)
    → match_labels (p ∷ ps) (h ∷ hs) ≡ true
    → (p ≡ codes "*") × (is_empty h ≡ false) × (contains h (codes "*") ≡ false) × (ps ≡ hs)
unfolding match_labels
match_labels_sound p h ps hs e =
    let star : p == codes "*" ≡ true = ground arith in
    let same : same_labels ps hs ≡ true = ground arith in
    ((==_iff p (codes "*")).0 star, ground arith, ground arith, (same_labels_iff ps hs).0 same)

match_labels_complete :
    (label : Text) (rest : List Text)
    → is_empty label ≡ false
    → contains label (codes "*") ≡ false
    → match_labels (codes "*" ∷ rest) (label ∷ rest) ≡ true
unfolding match_labels ◌==◌
match_labels_complete label rest e s = ground (arith, (same_labels_iff rest rest).1 refl)

match_labels-Covers :
    (pattern_ host : Text) (ps hs : List Text)
    → split b'.' pattern_ ≡ ps
    → split b'.' host ≡ hs
    → match_labels ps hs ≡ true
    → Covers pattern_ host
unfolding match_labels
match_labels-Covers pattern_ host [] hs p q e = cc
match_labels-Covers pattern_ host (x ∷ ps) [] p q e = cc
match_labels-Covers pattern_ host (x ∷ ps) (h ∷ hs) p q e =
    let (star, filled, plain, same) = match_labels_sound x h ps hs e in
    record {
      label = h;
      rest = hs;
      pattern_labels = p ∙ cc;
      host_labels = q;
      not_empty = filled;
      no_star = plain;
    }

-- A wildcard matches exactly the hosts with one more label than its rest, and that label neither
-- empty nor with a `*`: not the bare domain, not two levels below it, and not its own text.
pub match_wildcard_iff :
    (pattern_ host : Text) → (match_wildcard pattern_ host ≡ true) ↔ Covers pattern_ host
unfolding match_wildcard
match_wildcard_iff pattern_ host = (
  λ e. match_labels-Covers pattern_ host (split b'.' pattern_) (split b'.' host) refl refl e,
  λ c.
      rw (c.pattern_labels, c.host_labels)
        (match_labels_complete c.label c.rest c.not_empty c.no_star),
)
