-- ===== src/Events/Index.antt =====
-- internal/events/events.go: the entries of the index, and the files that they are of.
use mathlib.Core.Path.{subst}
use hermes_security_skills.Base.{
  >>=-eq-ok, All, All-map, Bool, Bool-cases, In, List, Option, Result-cases, [], ap, inl, inr,
  length, none, ok, ok-injective, refl, suc, ◌∙◌, ◌∷◌, ◌≡◌,
}
use hermes_security_skills.Base.Int.{lebℤ}
use hermes_security_skills.Base.Text.{Text}
use hermes_security_skills.Events.{
  EventCodec, EventEntry, EvidenceCore, build_index, built_index, entry_for, fingerprint,
  insert_entry, parse_and_verify, read_cache, read_files, sort_entries, verify_files,
}
use hermes_security_skills.Events.Listing.{IsAscending, sort_entries-All, sort_entries-IsAscending}

module _ (k : EventCodec) where
  -- The entry is that of a file of the directory which passed the check of its digest.
  pub record IsVerified (files : List (Text × Text)) (e : EventEntry) : Type 0 where
    pub name : Text
    pub bytes : Text
    pub evidence : EvidenceCore × Text
    pub listed : In (name, bytes) files
    pub verified : parse_and_verify k bytes ≡ ok evidence
    pub same : e ≡ entry_for name evidence

  IsVerified-later :
      (file : Text × Text) (files : List (Text × Text)) (e : EventEntry)
      → IsVerified files e
      → IsVerified (file ∷ files) e
  IsVerified-later file files e v = record {
    name = v.name;
    bytes = v.bytes;
    evidence = v.evidence;
    listed = inr v.listed;
    verified = v.verified;
    same = v.same;
  }

  verify_files-IsVerified :
      (files : List (Text × Text)) (es : List EventEntry)
      → verify_files k files ≡ ok es
      → All (IsVerified files) es × (length es ≡ length files)
  unfolding verify_files
  verify_files-IsVerified [] es h =
      subst (λ x. All (IsVerified []) x × (length x ≡ 0)) (ok-injective h) (tt, refl)
  verify_files-IsVerified ((name, bytes) ∷ files) es h =
      let (evidence, verified, h1) = >>=-eq-ok (parse_and_verify k bytes) _ h in
      let (rest, later, h2) = >>=-eq-ok (verify_files k files) _ h1 in
      let (all_rest, size) = verify_files-IsVerified files rest later in
      let here : IsVerified ((name, bytes) ∷ files) (entry_for name evidence) = record {
        name = name;
        bytes = bytes;
        evidence = evidence;
        listed = inl refl;
        verified = verified;
        same = refl;
      } in
      subst (λ x. All (IsVerified ((name, bytes) ∷ files)) x × (length x ≡ suc (length files)))
        (ok-injective h2)
        ((here, All-map _ _ (IsVerified-later (name, bytes) files) rest all_rest), ap suc size)

  -- Each of the files has an entry that names it.
  abbrev pub HasEntries : List (Text × Text) → List EventEntry → Type 0
  HasEntries files es =
      (name bytes : Text)
      → In (name, bytes) files
      → (e : EventEntry) × In e es × (e.evidence_ref ≡ name)

  verify_files-HasEntries :
      (files : List (Text × Text)) (es : List EventEntry)
      → verify_files k files ≡ ok es
      → HasEntries files es
  unfolding verify_files
  verify_files-HasEntries [] es h name bytes listed = absurd listed
  verify_files-HasEntries ((n, bs) ∷ files) es h name bytes listed =
      let (evidence, verified, h1) = >>=-eq-ok (parse_and_verify k bs) _ h in
      let (rest, later, h2) = >>=-eq-ok (verify_files k files) _ h1 in
      let same : entry_for n evidence ∷ rest ≡ es = ok-injective h2 in
      elim listed [
        | inl here ↦ (
          entry_for n evidence,
          subst (In (entry_for n evidence)) same (inl refl),
          ap (λ x. x.0) here,
        )
        | inr there ↦
            let (e, found, named) = verify_files-HasEntries files rest later name bytes there in
            (e, subst (In e) same (inr found), named)
      ]

  insert_entry-here : (e : EventEntry) (es : List EventEntry) → In e (insert_entry e es)
  unfolding insert_entry
  insert_entry-here e [] = inl refl
  insert_entry-here e (f ∷ fs) = elim (Bool-cases (lebℤ e.seq f.seq)) [
    | inl g ↦ rw (g, insert_entry) (inl refl)
    | inr g ↦ rw (g, insert_entry) (inr (insert_entry-here e fs))
  ]

  insert_entry-In : (e x : EventEntry) (es : List EventEntry) → In x es → In x (insert_entry e es)
  unfolding insert_entry
  insert_entry-In e x [] h = absurd h
  insert_entry-In e x (f ∷ fs) h = elim (Bool-cases (lebℤ e.seq f.seq)) [
    | inl g ↦ rw (g, insert_entry) (inr h)
    | inr g ↦ elim h [
      | inl same ↦ rw (g, insert_entry) (inl same)
      | inr later ↦ rw (g, insert_entry) (inr (insert_entry-In e x fs later))
    ]
  ]

  sort_entries-In : (x : EventEntry) (es : List EventEntry) → In x es → In x (sort_entries es)
  unfolding sort_entries
  sort_entries-In x [] h = absurd h
  sort_entries-In x (e ∷ es) (inl same) =
      subst (λ y. In y (insert_entry e (sort_entries es))) same
        (insert_entry-here e (sort_entries es))
  sort_entries-In x (e ∷ es) (inr later) =
      insert_entry-In e x (sort_entries es) (sort_entries-In x es later)

  sort_entries-HasEntries :
      (files : List (Text × Text)) (es : List EventEntry)
      → HasEntries files es
      → HasEntries files (sort_entries es)
  sort_entries-HasEntries files es h name bytes listed =
      let (e, found, named) = h name bytes listed in (e, sort_entries-In e es found, named)

  insert_entry-length :
      (e : EventEntry) (es : List EventEntry) → length (insert_entry e es) ≡ suc (length es)
  unfolding insert_entry
  insert_entry-length e [] = refl
  insert_entry-length e (f ∷ fs) = elim (Bool-cases (lebℤ e.seq f.seq)) [
    | inl g ↦ rw (g, insert_entry) refl
    | inr g ↦ rw (g, insert_entry) (ap suc (insert_entry-length e fs))
  ]

  sort_entries-length : (es : List EventEntry) → length (sort_entries es) ≡ length es
  unfolding sort_entries
  sort_entries-length [] = refl
  sort_entries-length (e ∷ es) =
      insert_entry-length e (sort_entries es) ∙ ap suc (sort_entries-length es)

  -- An index of the files: an entry for each, no more entries, all verified, in ascending order.
  pub record IsIndex (files : List (Text × Text)) (es : List EventEntry) : Type 0 where
    pub verified : All (IsVerified files) es
    pub all_files : HasEntries files es
    pub no_more : length es ≡ length files
    pub ascending : IsAscending es

  -- Where the cache is not that of the directory, the index that is built has one entry for each
  -- file, all of them of files whose digest was verified, in ascending order.
  pub build_index-IsIndex :
      (writable : Bool) (dir : List (Text × Option Text)) (cache : Option Text)
      (files : List (Text × Text)) (es : List EventEntry)
      → read_files dir ≡ ok files
      → read_cache k cache (fingerprint k files) ≡ none
      → (build_index k writable dir cache).0 ≡ ok es
      → IsIndex files es
  unfolding build_index
  build_index-IsIndex writable dir cache files es reads stale h =
      elim (Result-cases (verify_files k files)) [
        | inr (_, e) ↦ (let impossible = rw (reads, stale, e, build_index, built_index) at h in cc)
        | inl (found, e) ↦
            let (all_found, size) = verify_files-IsVerified files found e in
            let same : sort_entries found ≡ es =
              ok-injective (rw (reads, stale, e, build_index, built_index) at h) in
            subst (IsIndex files) same (record {
              verified = sort_entries-All (IsVerified files) found all_found;
              all_files =
                  sort_entries-HasEntries files found (verify_files-HasEntries files found e);
              no_more = sort_entries-length found ∙ size;
              ascending = sort_entries-IsAscending found;
            })
      ]
