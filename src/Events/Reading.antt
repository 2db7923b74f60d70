-- ===== src/Events/Reading.antt =====
-- internal/events/inspect.go: a reference to evidence, and what Inspect returns for it.
use hermes_security_skills.Base.{
  Bool, List, Result, [], deny_if, err, false, if◌then◌else◌, none, not, ok, some, ◌>>=◌, ◌>>◌,
  ◌||◌, ◌∷◌,
}
use hermes_security_skills.Base.Text.{
  Text, codes, contains_any, has_prefix, is_empty, trim_space, ◌==◌,
}
use hermes_security_skills.Events.{
  EventCodec, EventEntry, EventError, EvidenceCore, bad_base64, invalid_ref, parse_and_verify,
  unknown_ref, unreadable_evidence,
}
use hermes_security_skills.Registry.{ref}

-- strings.HasSuffix
unfoldable pub has_suffix : Text → Text → Bool
unfolding ◌==◌
has_suffix [] suffix = is_empty suffix
has_suffix (c ∷ s) suffix = c ∷ s == suffix || has_suffix s suffix

-- safeRef; a text without separators that is not empty is its own filepath.Base.
unfoldable pub safe_ref : Text → Result EventError Text
unfolding has_suffix has_prefix contains_any
safe_ref ref =
    let r = trim_space ref in
    do
      deny_if (is_empty r) invalid_ref
      deny_if (contains_any r (codes "/\\") || r == codes "." || r == codes "..") invalid_ref
      deny_if (not (has_prefix r (codes "evidence-")) || not (has_suffix r (codes ".json")))
          invalid_ref
      ok r

-- Store.lookup
unfoldable pub is_indexed : Text → List EventEntry → Bool
is_indexed ref [] = false
is_indexed ref (e ∷ es) = e.evidence_ref == ref || is_indexed ref es

-- What ReadFile finds under a name of the directory.
pub data Found : Type 0 where
  no_bytes unreadable_bytes : Found
  bytes_of_file : Text → Found

unfoldable pub read_evidence : EventCodec → Found → Result EventError (EvidenceCore × Text)
unfolding parse_and_verify
read_evidence k no_bytes = err unknown_ref
read_evidence k unreadable_bytes = err unreadable_evidence
read_evidence k (bytes_of_file bytes) = parse_and_verify k bytes

-- loadVerified
unfoldable pub load_verified :
    EventCodec
    → List EventEntry
    → (Text → Found)
    → Text
    → Result EventError (Text × EvidenceCore × Text)
unfolding safe_ref is_indexed read_evidence
load_verified k entries dir evidence_ref = do
  ref ← safe_ref evidence_ref
  deny_if (not (is_indexed ref entries)) unknown_ref
  rec ← read_evidence k (dir ref)
  ok (ref, rec.0, rec.1)

pub data Body : Type 0 where
  no_body : Body
  utf8_body base64_body : Text → Body

-- decodeBody
unfoldable pub decode_body : EventCodec → Text → Result EventError Body
decode_body k b64 = if is_empty b64 then ok no_body else elim (k.decode_base64 b64) [
  | none ↦ err bad_base64
  | some raw ↦ if k.is_utf8 raw then ok (utf8_body raw) else ok (base64_body b64)
]

pub record EvidenceDetail : Type 0 where
  pub ref : Text
  pub core : EvidenceCore
  pub sha256 : Text
  pub request : Body
  pub response : Body

-- Inspect
unfoldable pub inspect_evidence :
    EventCodec → List EventEntry → (Text → Found) → Text → Result EventError EvidenceDetail
unfolding load_verified decode_body
inspect_evidence k entries dir evidence_ref = do
  loaded ← load_verified k entries dir evidence_ref
  request ← decode_body k loaded.1.request_body
  response ← decode_body k loaded.1.response_body
  ok (record {
    ref = loaded.0;
    core = loaded.1;
    sha256 = loaded.2;
    request = request;
    response = response;
  })
