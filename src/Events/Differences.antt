-- ===== src/Events/Differences.antt =====
-- internal/events/compare.go: when compareRecords observes nothing.
use mathlib.Core.Option.{some-ne-none}
use mathlib.Core.Path.{subst}
use hermes_security_skills.Base.{
  ++-empty, Bool, Bool-cases, In, In-++l, In-++r, In-keep, List, Option, Option-cases, [], ap,
  arith, false, if◌then◌else◌, inl, inr, keep, none, not, refl, some, sym, true, ◌&&◌, ◌++◌, ◌↔◌,
  ◌∙◌, ◌∷◌, ◌≡◌, ◌⊎◌,
}
use hermes_security_skills.Base.Int.{eq_of_parts, lebℤ, parts_eq}
use hermes_security_skills.Base.Text.{Text, ◌==◌}
use hermes_security_skills.Base.Text.Laws.{==_cases, ==_iff, ==_refl}
use hermes_security_skills.Capability.Order.{sort_texts-In}
use hermes_security_skills.Document.{get_text}
use hermes_security_skills.Events.{EventCodec, EvidenceCore}
use hermes_security_skills.Events.Comparing.{
  Observation, add_obs, compare_headers, compare_records, equal_bytes, is_key, keys_of, must_decode,
  normalize_headers, observe, sorted_union_keys,
}

-- Nothing that the comparison looks at differs: the status, the values of each header in lower case,
-- and the bytes of the body.
pub record Matches (k : EventCodec) (a b : EvidenceCore) : Type 0 where
  pub status : a.status ≡ b.status
  pub headers :
      (name : Text)
      → get_text name (normalize_headers a.headers) ≡ get_text name (normalize_headers b.headers)
  pub body : must_decode k a.response_body ≡ must_decode k b.response_body

observe-none : (name : Text) (v w : Option Text) → observe name v w ≡ none → v ≡ w
observe-none name none none h = refl
observe-none name none (some w) h = absurd (some-ne-none _ h)
observe-none name (some v) none h = absurd (some-ne-none _ h)
observe-none name (some v) (some w) h = elim (==_cases v w) [
  | inl (_, e) ↦ ap (λ x. some x) e
  | inr (e, _) ↦ absurd (some-ne-none _ (rw e at h))
]

observe-same : (name : Text) (v : Option Text) → observe name v v ≡ none
observe-same name none = refl
observe-same name (some v) = rw (==_refl v) refl

add_obs-empty :
    (o : Option Observation) (obs : List Observation) → add_obs o obs ≡ [] → (o ≡ none) × (obs ≡ [])
add_obs-empty none obs h = (refl, h)
add_obs-empty (some o) obs h = cc

compare_headers-empty :
    (a b : List (Text × Text)) (names : List Text)
    → compare_headers a b names ≡ []
    → (name : Text) → In name names
    → get_text name a ≡ get_text name b
unfolding compare_headers
compare_headers-empty a b [] h name i = absurd i
compare_headers-empty a b (n ∷ names) h name i =
    let (first, rest) =
      add_obs-empty (observe n (get_text n a) (get_text n b)) (compare_headers a b names) h in
    elim i [
      | inl e ↦
          subst (λ x. get_text x a ≡ get_text x b) e
            (observe-none n (get_text n a) (get_text n b) first)
      | inr later ↦ compare_headers-empty a b names rest name later
    ]

compare_headers-same :
    (a b : List (Text × Text)) (names : List Text)
    → ((name : Text) → get_text name a ≡ get_text name b)
    → compare_headers a b names ≡ []
unfolding compare_headers
compare_headers-same a b [] h = refl
compare_headers-same a b (n ∷ names) h =
    rw (h n, observe-same n (get_text n b)) (compare_headers-same a b names h)

get_text-In :
    (name v : Text) (m : List (Text × Text)) → get_text name m ≡ some v → In name (keys_of m)
unfolding get_text
get_text-In name v [] h = absurd (some-ne-none _ (sym h))
get_text-In name v ((n, w) ∷ m) h = elim (Bool-cases (n == name)) [
  | inl e ↦ inl ((==_iff n name).0 e)
  | inr e ↦ inr (get_text-In name v m (rw (e, get_text) at h))
]

-- A name that has a value in one of the two is compared.
union-In :
    (a b : List (Text × Text)) (name : Text)
    → (get_text name a ≡ none) × (get_text name b ≡ none) ⊎ In name (sorted_union_keys a b)
unfolding sorted_union_keys
union-In a b name =
    let more = keep (λ n. not (is_key a n)) (keys_of b) in
    elim (Option-cases (get_text name a)) [
      | inr (v, e) ↦ inr (
          sort_texts-In name (keys_of a ++ more)
            (In-++l name (keys_of a) more (get_text-In name v a e)))
      | inl e ↦ elim (Option-cases (get_text name b)) [
        | inl f ↦ inl (e, f)
        | inr (w, f) ↦
            let fresh_key : not (is_key a name) ≡ true = rw (e, not, is_key) refl in
            inr (
              sort_texts-In name (keys_of a ++ more) (
                In-++r name (keys_of a) more (
                  In-keep (λ n. not (is_key a n)) name (keys_of b) (get_text-In name w b f)
                    fresh_key)))
      ]
    ]

equal_bytes-same : (s : Option Text) → equal_bytes s s ≡ true
equal_bytes-same none = refl
equal_bytes-same (some s) = ==_refl s

equal_bytes-eq : (s t : Option Text) → equal_bytes s t ≡ true → s ≡ t
equal_bytes-eq none none h = refl
equal_bytes-eq none (some t) h = cc
equal_bytes-eq (some s) none h = cc
equal_bytes-eq (some s) (some t) h = ap (λ x. some x) ((==_iff s t).0 h)

unless-empty : (b : Bool) (o : Observation) → (if not b then o ∷ [] else []) ≡ [] → b ≡ true
unless-empty true o h = refl
unless-empty false o h = cc

-- compareRecords observes nothing exactly where the responses agree: in the status, in every header,
-- whatever the case of its name, and in the bytes of the body.
pub compare_records-Matches :
    (k : EventCodec) (a b : EvidenceCore) → (compare_records k a b ≡ []) ↔ Matches k a b
unfolding compare_records
compare_records-Matches k a b =
    let ha = normalize_headers a.headers in
    let hb = normalize_headers b.headers in
    let names = sorted_union_keys ha hb in
    let body_a = must_decode k a.response_body in
    let body_b = must_decode k b.response_body in
    (
      λ h.
          let (no_status, others) = ++-empty _ _ h in
          let (no_headers, same_body) = ++-empty (compare_headers ha hb names) _ others in
          let same = unless-empty (lebℤ a.status b.status && lebℤ b.status a.status) _ no_status in
          record {
            status = ground (arith, eq_of_parts a.status b.status);
            headers = λ name. elim (union-In ha hb name) [
              | inl (e, f) ↦ e ∙ sym f
              | inr listed ↦ compare_headers-empty ha hb names no_headers name listed
            ];
            body =
                equal_bytes-eq body_a body_b (unless-empty (equal_bytes body_a body_b) _ same_body);
          },
      λ agree.
          let same : lebℤ a.status b.status && lebℤ b.status a.status ≡ true =
            ground (arith, parts_eq agree.status) in
          let same_headers = compare_headers-same ha hb names agree.headers in
          let same_bytes = ap (equal_bytes body_a) (sym agree.body) ∙ equal_bytes-same body_a in
          rw (compare_records, same, same_headers, same_bytes) refl,
    )
