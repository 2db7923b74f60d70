-- ===== src/Events.antt =====
-- internal/events: the index over the files of evidence, its cache, and what is read through it. JSON,
-- SHA-256, base64 and the test for UTF-8 are the parameter `EventCodec`. The texts of errors are left
-- out.
pub mod Reading
pub mod Comparing
pub mod Listing
pub mod Index
pub mod Differences
pub mod Agreement
pub mod Tests
pub mod Filter
pub mod Json
use hermes_security_skills.Base.{
  Bool, List, Option, Result, [], deny_if, err, false, if◌then◌else◌, keep, length, map_some, none,
  not, ok, some, suc, true, zero, ℕ, ◌&&◌, ◌++◌, ◌-◌, ◌>>=◌, ◌>>◌, ◌||◌, ◌∷◌,
}
use hermes_security_skills.Audit.{encode_entry}
use hermes_security_skills.Base.Int.{lebℤ, ltbℤ, pos, pos_part, ℤ}
use hermes_security_skills.Base.Text.{
  Text, codes, contains, is_blank, is_empty, split, to_lower, to_upper, trim_space, ◌==◌,
}
use hermes_security_skills.Document.{Fields}

pub record EventEntry : Type 0 where
  pub seq : ℤ
  pub ts : Text
  pub url : Text
  pub method : Text
  pub status : ℤ
  pub evidence_ref : Text
  pub sha256 : Text
  pub case_id : Text

-- coreRecord. `copied` has what Inspect only copies: provenance, headers of the request, redirect,
-- hops, latency and the mark of a cut body.
pub record EvidenceCore : Type 0 where
  pub seq : ℤ
  pub captured_at : Text
  pub method : Text
  pub url : Text
  pub request_body : Text
  pub status : ℤ
  pub headers : List (Text × List Text)
  pub response_body : Text
  pub case_id : Text
  pub copied : Fields

-- The tests of the package events on what other packages give: json.Unmarshal and json.Marshal of
-- evidence, of the first line of the cache and of its other lines; the hexadecimal SHA-256;
-- strconv.FormatInt of a size; base64 and utf8.Valid.
pub record EventCodec : Type 0 where
  pub decode_evidence : Text → Option (EvidenceCore × Text)
  pub encode_core : EvidenceCore → Option Text
  pub decode_meta : Text → Option (Text × ℤ × Text)
  pub encode_meta : Text × ℤ × Text → Text
  pub decode_entry : Text → Option EventEntry
  pub encode_entry : EventEntry → Text
  pub sha256_hex : Text → Text
  pub format_int : ℕ → Text
  pub decode_base64 : Text → Option Text
  pub is_utf8 : Text → Bool

pub data EventError : Type 0 where
  unreadable_evidence bad_evidence no_digest not_encodable tampered : EventError
  invalid_ref unknown_ref bad_base64 : EventError

-- ListFilter
pub record ListFilter : Type 0 where
  pub limit : ℤ
  pub url_substring : Text
  pub method : Text
  pub status_min : ℤ
  pub case_id : Text

-- The tests of one round of List.
unfoldable pub passes : ListFilter → EventEntry → Bool
passes f e =
    let method = to_upper (trim_space f.method) in
    let sub = to_lower (trim_space f.url_substring) in
    let case_id = trim_space f.case_id in
    not (not (is_empty sub) && not (contains (to_lower e.url) sub))
    && not (not (is_empty method) && not (e.method == method))
    && not (ltbℤ (pos 1) f.status_min && ltbℤ e.status f.status_min)
    && not (not (is_empty case_id) && not (e.case_id == case_id))

-- The last entries, as many as `n`.
unfoldable pub drop_first : ℕ → List EventEntry → List EventEntry
drop_first zero es = es
drop_first (suc n) [] = []
drop_first (suc n) (e ∷ es) = drop_first n es

-- List
unfoldable pub list_events_of : List EventEntry → ListFilter → List EventEntry
unfolding keep passes drop_first
list_events_of entries f =
    let out = keep (passes f) entries in
    if ltbℤ (pos 0) f.limit && ltbℤ f.limit (pos (length out))
    then drop_first (length out - pos_part f.limit) out
    else out

-- The files in the order of their names, or the first that cannot be read.
unfoldable pub read_files : List (Text × Option Text) → Result EventError (List (Text × Text))
read_files [] = ok []
read_files ((name, none) ∷ files) = err unreadable_evidence
read_files ((name, some bytes) ∷ files) = do rest ← read_files files; ok ((name, bytes) ∷ rest)

abbrev pub entry_for : Text → EvidenceCore × Text → EventEntry
entry_for name (core, digest) = record {
  seq = core.seq;
  ts = core.captured_at;
  url = core.url;
  method = core.method;
  status = core.status;
  evidence_ref = name;
  sha256 = digest;
  case_id = core.case_id;
}

module _ (k : EventCodec) where
  -- parseAndVerify; EqualFold of two hexadecimal texts compares them in lower case.
  unfoldable pub parse_and_verify : Text → Result EventError (EvidenceCore × Text)
  parse_and_verify bytes = elim (k.decode_evidence bytes) [
    | none ↦ err bad_evidence
    | some (core, digest) ↦ do
      deny_if (is_blank digest) no_digest
      elim (k.encode_core core) [
        | none ↦ err not_encodable
        | some text ↦
            if not (to_lower (k.sha256_hex text) == to_lower digest)
            then err tampered
            else ok (core, digest)
      ]
  ]

  -- The text of which the fingerprint of a directory is the hash.
  unfoldable pub fingerprint_text : List (Text × Text) → Text
  fingerprint_text [] = []
  fingerprint_text ((name, bytes) ∷ files) =
      name
      ++ codes ":"
      ++ k.format_int (length bytes)
      ++ codes ":"
      ++ k.sha256_hex bytes
      ++ codes "\n"
      ++ fingerprint_text files

  unfoldable pub fingerprint : List (Text × Text) → Text
  unfolding fingerprint_text
  fingerprint files = k.sha256_hex (fingerprint_text files)

  unfoldable pub read_cached_lines : List Text → Option (List EventEntry)
  read_cached_lines [] = some []
  read_cached_lines (line ∷ lines) =
      let rest = read_cached_lines lines in
      elim (is_blank line) [
        | true ↦ rest
        | false ↦ elim (k.decode_entry (trim_space line)) [
          | none ↦ none
          | some e ↦ map_some (λ es. e ∷ es) rest
        ]
      ]

  abbrev pub cached_under : List Text → Text → Option (List EventEntry)
  cached_under [] wanted = none
  cached_under (line ∷ lines) wanted = elim (k.decode_meta line) [
    | none ↦ none
    | some (name, version, found) ↦
        if not (name == codes "events-index")
          || not (lebℤ version (pos 2) && lebℤ (pos 2) version)
          || not (found == wanted)
        then none
        else read_cached_lines lines
  ]

  -- readCache
  unfoldable pub read_cache : Option Text → Text → Option (List EventEntry)
  unfolding read_cached_lines split
  read_cache none wanted = none
  read_cache (some text) wanted = cached_under (split 10 (trim_space text)) wanted

  unfoldable pub cache_lines : List EventEntry → Text
  cache_lines [] = []
  cache_lines (e ∷ es) = k.encode_entry e ++ codes "\n" ++ cache_lines es

  -- The text that writeCache writes.
  unfoldable pub cache_text : Text → List EventEntry → Text
  unfolding cache_lines
  cache_text found es =
      k.encode_meta (codes "events-index", pos 2, found) ++ codes "\n" ++ cache_lines es

  unfoldable pub verify_files : List (Text × Text) → Result EventError (List EventEntry)
  unfolding parse_and_verify
  verify_files [] = ok []
  verify_files ((name, bytes) ∷ files) = do
    rec ← parse_and_verify bytes
    rest ← verify_files files
    ok (entry_for name rec ∷ rest)

-- sort.SliceStable by the sequence number.
unfoldable pub insert_entry : EventEntry → List EventEntry → List EventEntry
insert_entry e [] = e ∷ []
insert_entry e (f ∷ fs) =
    let rest = insert_entry e fs in if lebℤ e.seq f.seq then e ∷ f ∷ fs else f ∷ rest

unfoldable pub sort_entries : List EventEntry → List EventEntry
unfolding insert_entry
sort_entries [] = []
sort_entries (e ∷ es) = insert_entry e (sort_entries es)

-- The index that is built from the files, with the cache that is written, if the disk takes it.
abbrev pub built_index :
    EventCodec
    → Bool
    → Option Text
    → List (Text × Text)
    → Result EventError (List EventEntry) × Option Text
built_index k writable cache files = elim (verify_files k files) [
  | err e ↦ (err e, cache)
  | ok es ↦ (
    ok (sort_entries es),
    if writable then some (cache_text k (fingerprint k files) (sort_entries es)) else cache,
  )
]

-- buildIndex: the entries, and the file of the cache after it.
unfoldable pub build_index :
    EventCodec
    → Bool
    → List (Text × Option Text)
    → Option Text
    → Result EventError (List EventEntry) × Option Text
unfolding read_files fingerprint read_cache verify_files sort_entries cache_text
build_index k writable dir cache = elim (read_files dir) [
  | err e ↦ (err e, cache)
  | ok files ↦ elim (read_cache k cache (fingerprint k files)) [
    | some es ↦ (ok es, cache)
    | none ↦ built_index k writable cache files
  ]
]
