-- ===== src/Events/Agreement.antt =====
-- internal/events/compare.go: what two responses have in common when compareRecords observes nothing.
use mathlib.Core.Option.{some-injective, some-ne-none}
use mathlib.Core.Path.{subst}
use hermes_security_skills.Base.{
  All, List, Option-cases, [], ap, inl, inr, none, refl, some, sym, ◌↔◌, ◌∙◌, ◌∷◌, ◌≡◌, ◌≢◌, ◌⊎◌,
}
use hermes_security_skills.Base.Text.{Text, to_lower}
use hermes_security_skills.Base.Text.Laws.{==_cases}
use hermes_security_skills.Document.{assign, get_text}
use hermes_security_skills.Document.Assign.{get_text-assign, get_text-assign_other}
use hermes_security_skills.Events.{EventCodec, EvidenceCore}
use hermes_security_skills.Events.Comparing.{
  compare_records, join_values, must_decode, normalize_from, normalize_headers,
}
use hermes_security_skills.Events.Differences.{compare_records-Matches}

-- The headers have these values, joined by commas, under a name that is this one in lower case.
abbrev pub HasValue : List (Text × List Text) → Text → Text → Type 0
HasValue [] name value = ⊥
HasValue ((n, vals) ∷ hs) name value =
    ((to_lower n ≡ name) × (join_values vals ≡ value)) ⊎ HasValue hs name value

abbrev pub Lacks : List (Text × List Text) → Text → Type 0
Lacks hs name = All (λ e. to_lower e.0 ≢ name) hs

-- No two names of the headers differ only in the case of their letters.
abbrev pub IsDistinct : List (Text × List Text) → Type 0
IsDistinct [] = Unit
IsDistinct ((n, vals) ∷ hs) = Lacks hs (to_lower n) × IsDistinct hs

-- The bytes of a body: what its base64 stands for, or the text itself where it is none.
abbrev pub IsBytes : EventCodec → Text → Text → Type 0
IsBytes k b64 bytes =
    (k.decode_base64 b64 ≡ some bytes) ⊎ ((k.decode_base64 b64 ≡ none) × (bytes ≡ b64))

-- The same status, the same values for each header, whatever the case of its name, and both texts of
-- the body empty, or neither and both of the same bytes.
pub record Agree (k : EventCodec) (a b : EvidenceCore) : Type 0 where
  pub status : a.status ≡ b.status
  pub headers : (name value : Text) → HasValue a.headers name value ↔ HasValue b.headers name value
  pub body :
      ((a.response_body ≡ []) × (b.response_body ≡ []))
      ⊎ ((a.response_body ≢ [])
          × (b.response_body ≢ [])
          × ((bytes : Text) × IsBytes k a.response_body bytes × IsBytes k b.response_body bytes))

normalize_from-Lacks :
    (hs : List (Text × List Text)) (out : List (Text × Text)) (name : Text)
    → Lacks hs name
    → get_text name (normalize_from hs out) ≡ get_text name out
unfolding normalize_from
normalize_from-Lacks [] out name h = refl
normalize_from-Lacks ((n, vals) ∷ hs) out name (here, rest) = elim (==_cases (to_lower n) name) [
  | inl (_, same) ↦ absurd (here same)
  | inr (apart, _) ↦
      normalize_from-Lacks hs (assign (to_lower n) (join_values vals) out) name rest
      ∙ get_text-assign_other (to_lower n) (join_values vals) name out apart
]

normalize_from-HasValue :
    (hs : List (Text × List Text)) (out : List (Text × Text)) (name value : Text)
    → IsDistinct hs
    → HasValue hs name value
    → get_text name (normalize_from hs out) ≡ some value
unfolding normalize_from
normalize_from-HasValue [] out name value d h = absurd h
normalize_from-HasValue ((n, vals) ∷ hs) out name value (lacks, d) (inl (named, joined)) =
    let out2 = assign (to_lower n) (join_values vals) out in
    ap (λ x. get_text x (normalize_from hs out2)) (sym named)
    ∙ normalize_from-Lacks hs out2 (to_lower n) lacks
    ∙ get_text-assign (to_lower n) (join_values vals) out
    ∙ ap (λ x. some x) joined
normalize_from-HasValue ((n, vals) ∷ hs) out name value (lacks, d) (inr later) =
    normalize_from-HasValue hs (assign (to_lower n) (join_values vals) out) name value d later

header-cases :
    (hs : List (Text × List Text)) (name : Text)
    → ((value : Text) × HasValue hs name value) ⊎ Lacks hs name
header-cases [] name = inr tt
header-cases ((n, vals) ∷ hs) name = elim (==_cases (to_lower n) name) [
  | inl (_, same) ↦ inl (join_values vals, inl (same, refl))
  | inr (_, apart) ↦ elim (header-cases hs name) [
    | inl (value, later) ↦ inl (value, inr later)
    | inr lacks ↦ inr (apart, lacks)
  ]
]

-- What is found in the headers of a record in lower case is what the record has.
normalize_headers_iff :
    (hs : List (Text × List Text)) (name value : Text)
    → IsDistinct hs
    → (get_text name (normalize_headers hs) ≡ some value) ↔ HasValue hs name value
unfolding normalize_headers get_text
normalize_headers_iff hs name value d = (
  λ h. elim (header-cases hs name) [
    | inl (other, has) ↦
        let found = normalize_from-HasValue hs [] name other d has in
        subst (HasValue hs name) (some-injective other value (sym found ∙ h)) has
    | inr lacks ↦ absurd (some-ne-none value (sym h ∙ normalize_from-Lacks hs [] name lacks))
  ],
  λ has. normalize_from-HasValue hs [] name value d has,
)

must_decode-empty : (k : EventCodec) → must_decode k [] ≡ none
unfolding must_decode
must_decode-empty k = refl

must_decode_iff :
    (k : EventCodec) (b64 bytes : Text)
    → b64 ≢ []
    → (must_decode k b64 ≡ some bytes) ↔ IsBytes k b64 bytes
unfolding must_decode
must_decode_iff k [] bytes full = absurd (full refl)
must_decode_iff k (c ∷ s) bytes full = elim (Option-cases (k.decode_base64 (c ∷ s))) [
  | inl e ↦ rw e (
    λ h. inr (refl, sym (some-injective _ _ h)),
    λ is. elim is [
      | inl h ↦ absurd (some-ne-none bytes (sym h))
      | inr (_, same) ↦ ap (λ x. some x) (sym same)
    ],
  )
  | inr (raw, e) ↦
      rw e (λ h. inl h, λ is. elim is [ inl h ↦ h | inr (h, _) ↦ absurd (some-ne-none raw h) ])
]

must_decode-some :
    (k : EventCodec) (b64 : Text) → b64 ≢ [] → (bytes : Text) × (must_decode k b64 ≡ some bytes)
unfolding must_decode
must_decode-some k [] full = absurd (full refl)
must_decode-some k (c ∷ s) full = elim (Option-cases (k.decode_base64 (c ∷ s))) [
  | inl e ↦ (c ∷ s, rw e refl)
  | inr (raw, e) ↦ (raw, rw e refl)
]

empty-cases : (s : Text) → (s ≡ []) ⊎ (s ≢ [])
empty-cases [] = inl refl
empty-cases (c ∷ s) = inr (λ h. cc)

abbrev SameBody : EventCodec → Text → Text → Type 0
SameBody k x y =
    ((x ≡ []) × (y ≡ []))
    ⊎ ((x ≢ []) × (y ≢ []) × ((bytes : Text) × IsBytes k x bytes × IsBytes k y bytes))

must_decode-same :
    (k : EventCodec) (x y : Text) → (must_decode k x ≡ must_decode k y) ↔ SameBody k x y
must_decode-same k x y = (
  λ h. elim (empty-cases x) [
    | inl e ↦ elim (empty-cases y) [
      | inl f ↦ inl (e, f)
      | inr g ↦
          let (bytes, made) = must_decode-some k y g in
          let nothing = ap (must_decode k) (sym e) in
          absurd (some-ne-none bytes (sym made ∙ sym h ∙ sym nothing ∙ must_decode-empty k))
    ]
    | inr f ↦
        let (bytes, made) = must_decode-some k x f in
        elim (empty-cases y) [
          | inl e ↦
              absurd
                (some-ne-none bytes (sym made ∙ h ∙ ap (must_decode k) e ∙ must_decode-empty k))
          | inr g ↦ inr (
            f,
            g,
            (
              bytes,
              (must_decode_iff k x bytes f).0 made,
              (must_decode_iff k y bytes g).0 (sym h ∙ made),
            ),
          )
        ]
  ],
  λ same. elim same [
    | inl (e, f) ↦ ap (must_decode k) (e ∙ sym f)
    | inr (f, g, (bytes, is_x, is_y)) ↦
        (must_decode_iff k x bytes f).1 is_x ∙ sym ((must_decode_iff k y bytes g).1 is_y)
  ],
)

same_headers :
    (a b : List (Text × List Text)) (name : Text)
    → IsDistinct a
    → IsDistinct b
    → ((name value : Text) → HasValue a name value ↔ HasValue b name value)
    → get_text name (normalize_headers a) ≡ get_text name (normalize_headers b)
same_headers a b name da db h = elim (Option-cases (get_text name (normalize_headers a))) [
  | inr (v, e) ↦
      e
      ∙ sym (
          (normalize_headers_iff b name v db).1
            ((h name v).0 ((normalize_headers_iff a name v da).0 e)))
  | inl e ↦ elim (Option-cases (get_text name (normalize_headers b))) [
    | inl f ↦ e ∙ sym f
    | inr (v, f) ↦
        let has = (h name v).1 ((normalize_headers_iff b name v db).0 f) in
        absurd (some-ne-none v (sym ((normalize_headers_iff a name v da).1 has) ∙ e))
  ]
]

-- Where no two header names of a response differ only in the case of their letters, compareRecords
-- observes nothing exactly if the responses agree: in the status, in the values of each header, joined
-- by commas, whatever the case of its name, and in the body, which is recorded as the empty text in
-- both, or in neither and then stands for the same bytes.
pub compare_records_iff :
    (k : EventCodec) (a b : EvidenceCore)
    → IsDistinct a.headers
    → IsDistinct b.headers
    → (compare_records k a b ≡ []) ↔ Agree k a b
compare_records_iff k a b da db =
    let (forth, back) = compare_records-Matches k a b in
    (
      λ h.
          let m = forth h in
          record {
            status = m.status;
            headers = λ name value. (
              λ has.
                  (normalize_headers_iff b.headers name value db).0
                    (sym (m.headers name) ∙ (normalize_headers_iff a.headers name value da).1 has),
              λ has.
                  (normalize_headers_iff a.headers name value da).0
                    (m.headers name ∙ (normalize_headers_iff b.headers name value db).1 has),
            );
            body = (must_decode-same k a.response_body b.response_body).0 m.body;
          },
      λ agree. back (record {
        status = agree.status;
        headers = λ name. same_headers a.headers b.headers name da db agree.headers;
        body = (must_decode-same k a.response_body b.response_body).1 agree.body;
      }),
    )
