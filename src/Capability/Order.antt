-- ===== src/Capability/Order.antt =====
-- internal/capability/capability.go: the order of sort.Strings.
use mathlib.Core.Path.{subst}
use hermes_security_skills.Base.{
  All, All-map, Bool-cases, In, List, [], arith, false, inl, inr, refl, true, ◌∷◌, ◌≡◌,
}
use hermes_security_skills.Base.Text.{Text}
use hermes_security_skills.Capability.{insert_text, sort_texts, text_leb}

-- A list in ascending order.
abbrev pub IsSorted : List Text → Type 0
IsSorted [] = Unit
IsSorted (s ∷ ss) = All (λ t. text_leb s t ≡ true) ss × IsSorted ss

text_leb_total : (s t : Text) → text_leb s t ≡ false → text_leb t s ≡ true
unfolding text_leb
text_leb_total [] t h = cc
text_leb_total (a ∷ s) [] h = refl
text_leb_total (a ∷ s) (b ∷ t) h = ground (arith, text_leb_total s t)

text_leb_trans : (s t u : Text) → text_leb s t ≡ true → text_leb t u ≡ true → text_leb s u ≡ true
unfolding text_leb
text_leb_trans [] t u h k = refl
text_leb_trans (a ∷ s) [] u h k = cc
text_leb_trans (a ∷ s) (b ∷ t) [] h k = cc
text_leb_trans (a ∷ s) (b ∷ t) (c ∷ u) h k = ground (arith, text_leb_trans s t u)

insert_text-All :
    (P : Text → Type 0) (s : Text) (ts : List Text) → P s → All P ts → All P (insert_text s ts)
unfolding insert_text
insert_text-All P s [] h hs = (h, tt)
insert_text-All P s (t ∷ ts) h (here, rest) = elim (Bool-cases (text_leb s t)) [
  | inl e ↦ rw (e, insert_text) (h, (here, rest))
  | inr e ↦ rw (e, insert_text) (here, insert_text-All P s ts h rest)
]

insert_text-IsSorted : (s : Text) (ts : List Text) → IsSorted ts → IsSorted (insert_text s ts)
unfolding insert_text
insert_text-IsSorted s [] h = (tt, tt)
insert_text-IsSorted s (t ∷ ts) (above, sorted) = elim (Bool-cases (text_leb s t)) [
  | inl e ↦
      let all_above =
        All-map _ (λ u. text_leb s u ≡ true) (λ u k. text_leb_trans s t u e k) ts above in
      rw (e, insert_text) ((e, all_above), (above, sorted))
  | inr e ↦
      rw (e, insert_text)
        (
          insert_text-All (λ u. text_leb t u ≡ true) s ts (text_leb_total s t e) above,
          insert_text-IsSorted s ts sorted,
        )
]

pub sort_texts-IsSorted : (ss : List Text) → IsSorted (sort_texts ss)
unfolding sort_texts
sort_texts-IsSorted [] = tt
sort_texts-IsSorted (s ∷ ss) = insert_text-IsSorted s (sort_texts ss) (sort_texts-IsSorted ss)

insert_text-here : (s : Text) (ts : List Text) → In s (insert_text s ts)
unfolding insert_text
insert_text-here s [] = inl refl
insert_text-here s (t ∷ ts) = elim (Bool-cases (text_leb s t)) [
  | inl e ↦ rw (e, insert_text) (inl refl)
  | inr e ↦ rw (e, insert_text) (inr (insert_text-here s ts))
]

insert_text-In : (s t : Text) (ts : List Text) → In t ts → In t (insert_text s ts)
unfolding insert_text
insert_text-In s t [] h = absurd h
insert_text-In s t (u ∷ ts) h = elim (Bool-cases (text_leb s u)) [
  | inl e ↦ rw (e, insert_text) (inr h)
  | inr e ↦ elim h [
    | inl same ↦ rw (e, insert_text) (inl same)
    | inr later ↦ rw (e, insert_text) (inr (insert_text-In s t ts later))
  ]
]

pub sort_texts-In : (t : Text) (ss : List Text) → In t ss → In t (sort_texts ss)
unfolding sort_texts
sort_texts-In t [] h = absurd h
sort_texts-In t (s ∷ ss) (inl same) =
    subst (λ x. In x (insert_text s (sort_texts ss))) same (insert_text-here s (sort_texts ss))
sort_texts-In t (s ∷ ss) (inr later) = insert_text-In s t (sort_texts ss) (sort_texts-In t ss later)

pub sort_texts-All : (P : Text → Type 0) (ss : List Text) → All P ss → All P (sort_texts ss)
unfolding sort_texts
sort_texts-All P [] h = tt
sort_texts-All P (s ∷ ss) (here, rest) =
    insert_text-All P s (sort_texts ss) here (sort_texts-All P ss rest)
