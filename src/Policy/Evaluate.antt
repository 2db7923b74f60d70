-- ===== src/Policy/Evaluate.antt =====
-- internal/policy/policy.go: the action that Evaluate takes from the file that LoadRisk has read.
use mathlib.Core.Path.{subst, ap₂}
use mathlib.Core.Option.{some-injective, some-ne-none}
use hermes_security_skills.Base.{
  >>=-eq-ok, All, Bool, Bool-cases, List, Option, Option-cases, Result, Result-cases, [], ap, arith,
  err, guard-eq-ok, inl, inr, keep, none, not, ok, ok-injective, refl, some, sym, true, ℕ, ◌∙◌, ◌∷◌,
  ◌≡◌, ◌≢◌, ◌⊎◌,
}
use hermes_security_skills.Approval.{new}
use hermes_security_skills.Base.Text.{Text, is_blank, to_lower, ◌==◌}
use hermes_security_skills.Base.Text.Laws.{==_cases, ==_iff}
use hermes_security_skills.Document.{
  Fields, Value, assign, bool_value, field, get_text, int_value, map_value, nil_value, no_fields,
  seq_value, string_value,
}
use hermes_security_skills.Document.Assign.{get_text-assign, get_text-assign_other}
use hermes_security_skills.Policy.{
  PolicyError, PolicyLimits, check_actions, empty_risk, evaluate, is_valid_action, load_risk,
  risk_entries, risk_entry, risk_from, unknown_action, unknown_class,
}
use hermes_security_skills.Risk.{default_action}

-- The file gives this action to this level, whatever the case of the key.
abbrev pub FileSays : Fields → Text → Text → Type 0
FileSays no_fields lvl a = ⊥
FileSays (field k v rest) lvl a = (to_lower k ≡ lvl) × (v ≡ string_value a) ⊎ FileSays rest lvl a

keep-All :
    (P : Text × Text → Type 0) (p : Text × Text → Bool) (es : List (Text × Text))
    → All P es
    → All P (keep p es)
unfolding keep
keep-All P p [] h = tt
keep-All P p (e ∷ es) (here, rest) = elim (Bool-cases (p e)) [
  | inl f ↦ rw (f, keep) (here, keep-All P p es rest)
  | inr f ↦ rw (f, keep) (keep-All P p es rest)
]

risk_entry-FileSays :
    (k : Text) (v : Value) (e : Text × Text)
    → risk_entry k v ≡ ok e
    → (to_lower k ≡ e.0) × (v ≡ string_value e.1)
unfolding risk_entry
risk_entry-FileSays k (string_value s) e h = elim (Result-cases (default_action (to_lower k))) [
  | inl (a, f) ↦
      let same = ok-injective (rw (f, risk_entry) at h) in
      (ap (λ x. x.0) same, ap (λ x. string_value x.1) same)
  | inr (_, f) ↦ absurd (ground arith)
]
risk_entry-FileSays k nil_value e h = elim (Result-cases (default_action (to_lower k))) [
  | inl (a, f) ↦ absurd (ground arith)
  | inr (_, f) ↦ absurd (ground arith)
]
risk_entry-FileSays k (bool_value _) e h = elim (Result-cases (default_action (to_lower k))) [
  | inl (a, f) ↦ absurd (ground arith)
  | inr (_, f) ↦ absurd (ground arith)
]
risk_entry-FileSays k (int_value _) e h = elim (Result-cases (default_action (to_lower k))) [
  | inl (a, f) ↦ absurd (ground arith)
  | inr (_, f) ↦ absurd (ground arith)
]
risk_entry-FileSays k (seq_value _) e h = elim (Result-cases (default_action (to_lower k))) [
  | inl (a, f) ↦ absurd (ground arith)
  | inr (_, f) ↦ absurd (ground arith)
]
risk_entry-FileSays k (map_value _) e h = elim (Result-cases (default_action (to_lower k))) [
  | inl (a, f) ↦ absurd (ground arith)
  | inr (_, f) ↦ absurd (ground arith)
]

risk_from-FromFile :
    (m : Fields) (old new : List (Text × Text)) (P : Text × Text → Type 0)
    → ((lvl a : Text) → FileSays m lvl a → P (lvl, a))
    → All P old
    → risk_from m old ≡ ok new
    → All P new
unfolding risk_from assign
risk_from-FromFile no_fields old new P says h e = subst (All P) (ok-injective e) h
risk_from-FromFile (field k v rest) old new P says h e =
    let (entry, read, next) = >>=-eq-ok (risk_entry k v) _ e in
    let from_file = says entry.0 entry.1 (inl (risk_entry-FileSays k v entry read)) in
    risk_from-FromFile rest (assign entry.0 entry.1 old) new P (λ lvl a s. says lvl a (inr s))
      (from_file, keep-All P _ old h) next

get_text-All :
    (P : Text × Text → Type 0) (name a : Text) (es : List (Text × Text))
    → All P es
    → get_text name es ≡ some a
    → P (name, a)
unfolding get_text
get_text-All P name a [] h e = absurd (ground arith)
get_text-All P name a ((k, v) ∷ es) (here, rest) e = elim (Bool-cases (k == name)) [
  | inl f ↦
      subst P
        (ap₂ (λ x y. (x, y)) ((==_iff k name).0 f) (some-injective _ _ (rw (f, get_text) at e)))
        here
  | inr f ↦ get_text-All P name a es rest (rw (f, get_text) at e)
]

check_actions-All :
    (m : List (Text × Text)) → check_actions m ≡ ok tt → All (λ e. is_valid_action e.1 ≡ true) m
unfolding check_actions
check_actions-All [] h = tt
check_actions-All ((k, a) ∷ m) h =
    let (valid, rest) = guard-eq-ok (not (is_valid_action a)) (unknown_action a) _ h in
    (ground arith, check_actions-All m rest)

-- An assignment does not take a level out of the mapping.
assign-keeps :
    (k v name : Text) (es : List (Text × Text))
    → get_text name es ≢ none
    → get_text name (assign k v es) ≢ none
assign-keeps k v name es h = elim (==_cases k name) [
  | inl (_, same) ↦
      subst (λ n. get_text n (assign k v es) ≢ none) same
        (λ gone. some-ne-none v (sym (get_text-assign k v es) ∙ gone))
  | inr (e, _) ↦ λ gone. h (sym (get_text-assign_other k v name es e) ∙ gone)
]

-- What the file says of a level, or the mapping had before, is in the mapping after it.
risk_from-keeps :
    (m : Fields) (old new : List (Text × Text)) (lvl a : Text)
    → risk_from m old ≡ ok new
    → FileSays m lvl a ⊎ (get_text lvl old ≢ none)
    → get_text lvl new ≢ none
unfolding risk_from
risk_from-keeps no_fields old new lvl a h (inl said) = absurd said
risk_from-keeps no_fields old new lvl a h (inr there) =
    subst (λ x. get_text lvl x ≢ none) (ok-injective h) there
risk_from-keeps (field k v rest) old new lvl a h said =
    let (entry, read, next) = >>=-eq-ok (risk_entry k v) _ h in
    let (key, _) = risk_entry-FileSays k v entry read in
    let old2 = assign entry.0 entry.1 old in
    elim said [
      | inl (inl (here, _)) ↦ risk_from-keeps rest old2 new lvl a next (
          inr (
            subst (λ n. get_text n old2 ≢ none) (sym key ∙ here)
              (λ gone. some-ne-none entry.1 (sym (get_text-assign entry.0 entry.1 old) ∙ gone))))
      | inl (inr later) ↦ risk_from-keeps rest old2 new lvl a next (inl later)
      | inr there ↦
          risk_from-keeps rest old2 new lvl a next
            (inr (assign-keeps entry.0 entry.1 lvl old there))
    ]

-- The document of the file, its mapping, and what LoadRisk has made of it.
load_risk-parts :
    (parse : List ℕ → Option Fields) (file : Option (List ℕ)) (m : List (Text × Text))
    → load_risk parse file ≡ ok m
    → (entries : Fields) × (risk_entries parse file ≡ ok entries)
      × (risk_from entries [] ≡ ok m)
      × (check_actions m ≡ ok tt)
unfolding load_risk
load_risk-parts parse file m h =
    let (entries, read, h1) = >>=-eq-ok (risk_entries parse file) _ h in
    let (made, from, h2) = >>=-eq-ok (risk_from entries []) _ h1 in
    let (_, valid, h3) = >>=-eq-ok (check_actions made) _ h2 in
    let same = ok-injective h3 in
    (
      entries,
      read,
      subst (λ x. risk_from entries [] ≡ ok x) same from,
      subst (λ x. check_actions x ≡ ok tt) same valid,
    )

-- What Evaluate may answer for a level where the file has these entries.
abbrev pub Answer : Fields → Text → Result PolicyError Text → Type 0
Answer entries lvl (ok a) = (is_valid_action a ≡ true) × FileSays entries lvl a
Answer entries lvl (err e) =
    ((e ≡ empty_risk) × (is_blank lvl ≡ true))
    ⊎ ((e ≡ unknown_class lvl) × ((a : Text) → ¬ (FileSays entries lvl a)))

-- With the mapping that LoadRisk has read, Evaluate answers for every level: an action that the file
-- gives to the level and that is one of the four known ones, an error for a blank level, or an error
-- for one to which the file gives no action; it never meets an unknown action.
pub evaluate-Answer :
    (parse : List ℕ → Option Fields) (file : Option (List ℕ)) (m : List (Text × Text))
    (limits : Option PolicyLimits) (lvl : Text)
    → load_risk parse file ≡ ok m
    → (entries : Fields) × (risk_entries parse file ≡ ok entries)
      × Answer entries lvl (evaluate (record { mapping = some m; limits = limits }) lvl)
unfolding evaluate
evaluate-Answer parse file m limits lvl h =
    let (entries, read, from, valid) = load_risk-parts parse file m h in
    (
      entries,
      read,
      elim (Bool-cases (is_blank lvl)) [
        | inl blank ↦ rw (blank, evaluate) (inl (refl, blank))
        | inr given ↦ elim (Option-cases (get_text lvl m)) [
          | inl f ↦
              rw (given, f, evaluate)
                (inr (refl, λ a said. risk_from-keeps entries [] m lvl a from (inl said) f))
          | inr (a, f) ↦
              let known =
                get_text-All (λ e. is_valid_action e.1 ≡ true) lvl a m (check_actions-All m valid)
                  f in
              let said =
                get_text-All (λ e. FileSays entries e.0 e.1) lvl a m
                  (risk_from-FromFile entries [] m (λ e. FileSays entries e.0 e.1) (λ l b s. s) tt
                    from)
                  f in
              rw (given, f, known, evaluate) (known, said)
        ]
      ],
    )
