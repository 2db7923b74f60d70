-- ===== src/Events/Comparing.antt =====
-- internal/events/compare.go: the comparison of two responses.
use hermes_security_skills.Base.{
  Bool, List, Option, Result, [], false, if◌then◌else◌, keep, length, map, none, not, ok, some,
  true, ℕ, ◌&&◌, ◌++◌, ◌>>=◌, ◌∷◌,
}
use hermes_security_skills.Base.Int.{lebℤ, ℤ}
use hermes_security_skills.Base.Text.{Text, codes, is_empty, to_lower, ◌==◌}
use hermes_security_skills.Capability.{sort_texts}
use hermes_security_skills.Document.{assign, get_text}
use hermes_security_skills.Events.{EventCodec, EventEntry, EventError, EvidenceCore}
use hermes_security_skills.Events.Reading.{Found, load_verified}

pub data Observation : Type 0 where
  status_diff : ℤ → ℤ → Observation
  header_only_a header_only_b : Text → Text → Observation
  header_diff : Text → Text → Text → Observation
  body_diff : ℕ → ℕ → Observation

-- strings.Join(vals, ", ")
unfoldable pub join_values : List Text → Text
join_values [] = []
join_values (v ∷ []) = v
join_values (v ∷ w ∷ vs) = v ++ codes ", " ++ join_values (w ∷ vs)

-- The loop of normalizeHeaders, over the headers as Go happens to visit them.
unfoldable pub normalize_from : List (Text × List Text) → List (Text × Text) → List (Text × Text)
unfolding join_values assign
normalize_from [] out = out
normalize_from ((name, vals) ∷ hs) out =
    normalize_from hs (assign (to_lower name) (join_values vals) out)

unfoldable pub normalize_headers : List (Text × List Text) → List (Text × Text)
unfolding normalize_from
normalize_headers hs = normalize_from hs []

abbrev pub keys_of : List (Text × Text) → List Text
keys_of m = map (λ e. e.0) m

abbrev pub is_key : List (Text × Text) → Text → Bool
is_key m name = elim (get_text name m) [ none ↦ false | some _ ↦ true ]

-- sortedUnionKeys
unfoldable pub sorted_union_keys : List (Text × Text) → List (Text × Text) → List Text
unfolding sort_texts keep get_text
sorted_union_keys a b = sort_texts (keys_of a ++ keep (λ name. not (is_key a name)) (keys_of b))

-- The switch on one key.
abbrev pub observe : Text → Option Text → Option Text → Option Observation
observe name none none = none
observe name none (some w) = some (header_only_b name w)
observe name (some v) none = some (header_only_a name v)
observe name (some v) (some w) = if not (v == w) then some (header_diff name v w) else none

abbrev pub add_obs : Option Observation → List Observation → List Observation
add_obs none obs = obs
add_obs (some o) obs = o ∷ obs

unfoldable pub compare_headers :
    List (Text × Text) → List (Text × Text) → List Text → List Observation
unfolding get_text
compare_headers a b [] = []
compare_headers a b (name ∷ names) =
    add_obs (observe name (get_text name a) (get_text name b)) (compare_headers a b names)

-- mustDecodeBytes; none is the nil slice.
unfoldable pub must_decode : EventCodec → Text → Option Text
must_decode k b64 =
    if is_empty b64
    then none
    else elim (k.decode_base64 b64) [ none ↦ some b64 | some raw ↦ some raw ]

-- equalBytes: reflect.DeepEqual tells nil from an empty slice.
abbrev pub equal_bytes : Option Text → Option Text → Bool
equal_bytes none none = true
equal_bytes none (some t) = false
equal_bytes (some s) none = false
equal_bytes (some s) (some t) = s == t

abbrev pub byte_length : Option Text → ℕ
byte_length none = 0
byte_length (some s) = length s

-- compareRecords
unfoldable pub compare_records : EventCodec → EvidenceCore → EvidenceCore → List Observation
unfolding normalize_headers sorted_union_keys compare_headers must_decode
compare_records k a b =
    let ha = normalize_headers a.headers in
    let hb = normalize_headers b.headers in
    let body_a = must_decode k a.response_body in
    let body_b = must_decode k b.response_body in
    let same_status = lebℤ a.status b.status && lebℤ b.status a.status in
    let body_obs =
      (if not (equal_bytes body_a body_b)
        then body_diff (byte_length body_a) (byte_length body_b) ∷ []
        else []) in
    (if not same_status then status_diff a.status b.status ∷ [] else [])
    ++ (compare_headers ha hb (sorted_union_keys ha hb) ++ body_obs)

pub record Comparison : Type 0 where
  pub ref_a : Text
  pub ref_b : Text
  pub status_a : ℤ
  pub status_b : ℤ
  pub observations : List Observation

-- Compare
unfoldable pub compare_evidence :
    EventCodec → List EventEntry → (Text → Found) → Text → Text → Result EventError Comparison
unfolding load_verified compare_records
compare_evidence k entries dir ref_a ref_b = do
  a ← load_verified k entries dir ref_a
  b ← load_verified k entries dir ref_b
  ok (record {
    ref_a = a.0;
    ref_b = b.0;
    status_a = a.1.status;
    status_b = b.1.status;
    observations = compare_records k a.1 b.1;
  })
