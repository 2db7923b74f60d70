-- ===== src/Document/Assign.antt =====
-- A mapping of texts after an assignment to one of its keys.
use hermes_security_skills.Base.{
  Bool-cases, List, [], ap, false, inl, inr, keep, not, refl, some, ◌∙◌, ◌∷◌, ◌≡◌,
}
use hermes_security_skills.Base.Text.{Text, ◌==◌}
use hermes_security_skills.Base.Text.Laws.{==_cases, ==_refl}
use hermes_security_skills.Document.{assign, get_text}

get_text-keep :
    (k name : Text) (m : List (Text × Text))
    → k == name ≡ false
    → get_text name (keep (λ e. not (e.0 == k)) m) ≡ get_text name m
unfolding get_text keep
get_text-keep k name [] apart = refl
get_text-keep k name ((n, v) ∷ m) apart = elim (==_cases n k) [
  | inl (e, same) ↦
      let other : n == name ≡ false = ap (λ x. x == name) same ∙ apart in
      rw (e, keep, other, get_text) (get_text-keep k name m apart)
  | inr (e, _) ↦ elim (Bool-cases (n == name)) [
    | inl f ↦ rw (e, keep, f, get_text) refl
    | inr f ↦ rw (e, keep, f, get_text) (get_text-keep k name m apart)
  ]
]

pub get_text-assign : (k v : Text) (m : List (Text × Text)) → get_text k (assign k v m) ≡ some v
unfolding assign get_text
get_text-assign k v m = rw (==_refl k, get_text) refl

pub get_text-assign_other :
    (k v name : Text) (m : List (Text × Text))
    → k == name ≡ false
    → get_text name (assign k v m) ≡ get_text name m
unfolding assign get_text
get_text-assign_other k v name m apart = rw (apart, get_text) (get_text-keep k name m apart)
