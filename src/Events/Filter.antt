-- ===== src/Events/Filter.antt =====
-- internal/events/events.go: which entries the filter of List lets through.
use hermes_security_skills.Base.{
  Bool, Bool-cases, [], arith, inl, inr, not, refl, true, ◌&&◌, ◌∷◌, ◌≡◌, ◌⊎◌,
}
use hermes_security_skills.Base.Int.{ltbℤ, pos, ℤ, ◌≤ℤ◌}
use hermes_security_skills.Base.Text.{
  Text, contains, is_empty, to_lower, to_upper, trim_space, ◌==◌,
}
use hermes_security_skills.Base.Text.Laws.{==_iff}
use hermes_security_skills.Events.{EventEntry, ListFilter, passes}

-- An entry that fits a filter: a blank text, a method or a case that is empty, and a least status of
-- at most 1 ask for nothing.
pub record IsWanted (f : ListFilter) (e : EventEntry) : Type 0 where
  pub in_url :
      (to_lower (trim_space f.url_substring) ≡ [])
      ⊎ (contains (to_lower e.url) (to_lower (trim_space f.url_substring)) ≡ true)
  pub by_method :
      (to_upper (trim_space f.method) ≡ []) ⊎ (e.method ≡ to_upper (trim_space f.method))
  pub at_least : (f.status_min ≤ℤ pos 1) ⊎ (f.status_min ≤ℤ e.status)
  pub of_case : (trim_space f.case_id ≡ []) ⊎ (e.case_id ≡ trim_space f.case_id)

is_empty-eq : (s : Text) → is_empty s ≡ true → s ≡ []
is_empty-eq [] h = refl
is_empty-eq (c ∷ s) h = absurd (ground arith)

-- The test of a text that the filter may leave empty.
asked : (s : Text) (b : Bool) → not (not (is_empty s) && not b) ≡ true → (s ≡ []) ⊎ (b ≡ true)
asked s b h = elim (Bool-cases (is_empty s)) [
  | inl e ↦ inl (is_empty-eq s e)
  | inr e ↦ inr (ground arith)
]

same_text : (s t : Text) → (s ≡ []) ⊎ (t == s ≡ true) → (s ≡ []) ⊎ (t ≡ s)
same_text s t (inl h) = inl h
same_text s t (inr h) = inr ((==_iff t s).0 h)

four_tests :
    (a b c d : Bool) → (a && b && c && d) ≡ true → (a ≡ true) × (b ≡ true) × (c ≡ true) × (d ≡ true)
four_tests a b c d h = ground arith

least_status :
    (least status : ℤ)
    → not (ltbℤ (pos 1) least && ltbℤ status least) ≡ true
    → (least ≤ℤ pos 1) ⊎ (least ≤ℤ status)
least_status least status h = elim (Bool-cases (ltbℤ (pos 1) least)) [
  | inl e ↦ inr (ground arith)
  | inr e ↦ inl (ground arith)
]

-- An entry that passes the tests of List is wanted by the filter.
pub passes-IsWanted : (f : ListFilter) (e : EventEntry) → passes f e ≡ true → IsWanted f e
unfolding passes
passes-IsWanted f e h =
    let method = to_upper (trim_space f.method) in
    let sub = to_lower (trim_space f.url_substring) in
    let case_id = trim_space f.case_id in
    let (in_url, by_method, at_least, of_case) =
      four_tests (not (not (is_empty sub) && not (contains (to_lower e.url) sub)))
        (not (not (is_empty method) && not (e.method == method)))
        (not (ltbℤ (pos 1) f.status_min && ltbℤ e.status f.status_min))
        (not (not (is_empty case_id) && not (e.case_id == case_id))) h in
    record {
      in_url = asked sub (contains (to_lower e.url) sub) in_url;
      by_method = same_text method e.method (asked method (e.method == method) by_method);
      at_least = least_status f.status_min e.status at_least;
      of_case = same_text case_id e.case_id (asked case_id (e.case_id == case_id) of_case);
    }
