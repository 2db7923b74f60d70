-- ===== src/Audit/Appending.antt =====
-- internal/audit/audit.go: what ReadAll gives of a log after Append.
use hermes_security_skills.Base.{
  ++_assoc, >>=-eq-ok, Bool-cases, List, Option-cases, Result, [], ap, arith, err, false, inl, inr,
  length, ok, ok-injective, refl, some, suc, sym, true, ℕ, ◌&&◌, ◌++◌, ◌∙◌, ◌∷◌, ◌≡◌, ◌⊎◌,
}
use hermes_security_skills.Audit.{
  AuditError, Entry, Format, LogFile, WriteOutcome, Writer, add_part, all_written, append,
  check_entry, draft, encode_entry, finish, first_runes, genesis_prev_hash, hash_entry, latest,
  log_text, no_log, not_opened, read_all, read_line, read_lines, torn, unreadable_file,
}
use hermes_security_skills.Audit.Chains.{IsChain, last_hash, read_all-IsChain}
use hermes_security_skills.Audit.Lines.{first_runes-rest, not_last, split_line, split_plain}
use hermes_security_skills.Base.Int.{+ℤ_parts, eq_of_parts, lebℤ, parts_eq, pos, ℤ, ◌+ℤ◌}
use hermes_security_skills.Base.Text.{Text, codes, contains_rune, is_blank, split, trim_space, ◌==◌}
use hermes_security_skills.Base.Text.Laws.{==_iff, ==_refl}

next_number : (seq : ℤ) (n : ℕ) → seq ≡ pos n → (seq +ℤ pos 1) ≡ pos (suc n)
next_number seq n h =
    rw h (eq_of_parts (pos n +ℤ pos 1) (pos (suc n)) (ground (arith, +ℤ_parts (pos n) (pos 1))))

-- The log is absent, empty, or ends with a line feed.
abbrev pub EndsLine : LogFile → Type 0
EndsLine no_log = Unit
EndsLine unreadable_file = ⊥
EndsLine (log_text s) = (s ≡ []) ⊎ ((t : Text) × (s ≡ t ++ codes "\n"))

module _ (f : Format) where
  lines_of :
      (line : Text)
      → contains_rune line b'\n' ≡ false
      → split b'\n' (line ++ codes "\n") ≡ line ∷ [] ∷ []
  unfolding split
  lines_of line one = split_line line [] ∙ ap (λ x. x ++ [] ∷ []) (split_plain line one)

  -- A draft continues a chain, and has the caller's words.
  abbrev pub Continues : Text → Text → Text → f.Detail → List (Entry f) → Entry f → Type 0
  Continues now actor action detail es e =
      (e.prev_hash ≡ last_hash f es)
      × (e.seq ≡ pos (suc (length es)))
      × (e.ts ≡ now)
      × (e.actor ≡ actor)
      × (e.action ≡ action)
      × (e.detail ≡ detail)

  draft-Continues :
      (now actor action : Text) (detail : f.Detail) (es : List (Entry f))
      → IsChain f es
      → Continues now actor action detail es
          (draft f (record { last = latest f es }) now actor action detail)
  unfolding draft
  draft-Continues now actor action detail [] chain = (refl, refl, refl, refl, refl, refl)
  draft-Continues now actor action detail (e ∷ es) (_, number, _, _) =
      (refl, next_number e.seq (suc (length es)) number, refl, refl, refl, refl)

  -- The line has no line feed and nothing around it, and is decoded as the entry.
  pub record IsLine (e : Entry f) (line : Text) : Type 0 where
    pub one_line : contains_rune line b'\n' ≡ false
    pub not_blank : is_blank line ≡ false
    pub trimmed : trim_space line ≡ line
    pub decoded :
        f.decode line ≡ some (e.seq, e.ts, e.actor, e.action, e.detail, e.prev_hash, e.entry_hash)

  check_entry_next :
      (e : Entry f) (es : List (Entry f))
      → IsChain f (e ∷ es)
      → check_entry f (last_hash f es) (length es) e ≡ ok e
  unfolding check_entry
  check_entry_next e es (linked, number, hashed, _) =
      let same_prev : e.prev_hash == last_hash f es ≡ true = (==_iff _ _).1 linked in
      let same_seq : lebℤ e.seq (pos (suc (length es))) && lebℤ (pos (suc (length es))) e.seq
          ≡ true =
        ground (arith, parts_eq number) in
      rw (same_prev, same_seq, hashed, ==_refl e.entry_hash) refl

  read_one :
      (e : Entry f) (es : List (Entry f)) (line : Text)
      → IsLine e line
      → IsChain f (e ∷ es)
      → read_lines f (last_hash f es) es (line ∷ [] ∷ []) ≡ ok (e ∷ es)
  unfolding read_lines read_line trim_space
  read_one e es line l chain =
      rw (l.not_blank, l.trimmed, read_lines, read_line, l.decoded, check_entry_next e es chain)
        refl

  -- One more line is read behind those that were read before.
  read_more :
      (prev : Text) (out : List (Entry f)) (ls : List Text) (es : List (Entry f)) (e : Entry f)
      (line : Text)
      → prev ≡ last_hash f out
      → IsLine e line
      → IsChain f (e ∷ es)
      → read_lines f prev out (ls ++ [] ∷ []) ≡ ok es
      → read_lines f prev out (ls ++ line ∷ [] ∷ []) ≡ ok (e ∷ es)
  unfolding read_lines trim_space
  read_more prev out [] es e line same l chain h =
      let all_read : out ≡ es = ok-injective h in
      ap (λ p. read_lines f p out (line ∷ [] ∷ [])) same
      ∙ ap (λ o. read_lines f (last_hash f o) o (line ∷ [] ∷ [])) all_read
      ∙ read_one e es line l chain
  read_more prev out (ln ∷ ls) es e line same l chain h = elim (Bool-cases (is_blank ln)) [
    | inl blank ↦ (let impossible = rw (blank, not_last ls, read_lines) at h in cc)
    | inr full ↦
        let (x, read, h1) =
          >>=-eq-ok (read_line f (trim_space ln)) _ (rw (full, read_lines) at h) in
        let (y, checked, h2) = >>=-eq-ok (check_entry f prev (length out) x) _ h1 in
        rw (full, read_lines, read, checked)
          (read_more y.entry_hash (y ∷ out) ls es e line refl l chain h2)
  ]

  read_empty : read_lines f genesis_prev_hash [] ([] ∷ []) ≡ ok []
  unfolding read_lines trim_space
  read_empty = refl

  read_appended :
      (file : LogFile) (es : List (Entry f)) (e : Entry f) (line : Text)
      → EndsLine file
      → IsLine e line
      → IsChain f (e ∷ es)
      → read_all f file ≡ ok es
      → read_all f (add_part f (line ++ codes "\n") file) ≡ ok (e ∷ es)
  unfolding read_all split
  read_appended no_log es e line end l chain h =
      ap (read_lines f genesis_prev_hash []) (lines_of line l.one_line)
      ∙ read_more genesis_prev_hash [] [] es e line refl l chain (read_empty ∙ h)
  read_appended unreadable_file es e line end l chain h = absurd end
  read_appended (log_text s) es e line (inl empty) l chain h =
      ap (λ x. read_lines f genesis_prev_hash [] (split b'\n' (x ++ (line ++ codes "\n")))) empty
      ∙ ap (read_lines f genesis_prev_hash []) (lines_of line l.one_line)
      ∙ read_more genesis_prev_hash [] [] es e line refl l chain
          (ap (λ x. read_lines f genesis_prev_hash [] (split b'\n' x)) (sym empty) ∙ h)
  read_appended (log_text s) es e line (inr (t, ends)) l chain h =
      let old : split b'\n' s ≡ split b'\n' t ++ [] ∷ [] =
        ap (split b'\n') ends ∙ split_line t [] in
      let new : split b'\n' (s ++ (line ++ codes "\n")) ≡ split b'\n' t ++ line ∷ [] ∷ [] =
        ap (λ x. split b'\n' (x ++ (line ++ codes "\n"))) ends
        ∙ ap (split b'\n') (++_assoc t (codes "\n") (line ++ codes "\n"))
        ∙ split_line t (line ++ codes "\n")
        ∙ ap (λ x. split b'\n' t ++ x) (lines_of line l.one_line) in
      ap (read_lines f genesis_prev_hash []) new
      ∙ read_more genesis_prev_hash [] (split b'\n' t) es e line refl l chain
          (ap (read_lines f genesis_prev_hash []) (sym old) ∙ h)

  add_part-EndsLine :
      (file : LogFile) (line : Text)
      → EndsLine file
      → EndsLine (add_part f (line ++ codes "\n") file)
  add_part-EndsLine no_log line end = inr (line, refl)
  add_part-EndsLine unreadable_file line end = end
  add_part-EndsLine (log_text s) line end = inr (s ++ line, sym (++_assoc s line (codes "\n")))

  -- The text is the beginning of the line of an entry that continues the log, or all of it.
  pub record IsBeginning (es : List (Entry f)) (part : Text) : Type 0 where
    pub next : Entry f
    pub line : Text
    pub missing : Text
    pub continues : IsChain f (next ∷ es)
    pub is_line : IsLine next line
    pub begins : part ++ missing ≡ line ++ codes "\n"

  -- What Append returns for the writer of a log with these entries.
  abbrev pub Appended :
      Text
      → Text
      → Text
      → f.Detail
      → LogFile
      → List (Entry f)
      → Result AuditError (Entry f) × Writer f × LogFile
      → Type 0
  Appended now actor action detail file es (err e, w, file') =
      (w.last ≡ latest f es)
      × ((file' ≡ file) ⊎ ((part : Text) × IsBeginning es part × (file' ≡ add_part f part file)))
  Appended now actor action detail file es (ok e, w, file') =
      (w.last ≡ some e)
      × (e.ts ≡ now)
      × (e.actor ≡ actor)
      × (e.action ≡ action)
      × (e.detail ≡ detail)
      × (read_all f file' ≡ ok (e ∷ es))
      × EndsLine file'

  finish-Appended :
      (outcome : WriteOutcome) (now actor action : Text) (detail : f.Detail) (file : LogFile)
      (es : List (Entry f)) (e : Entry f) (line : Text)
      → (e.ts ≡ now) × (e.actor ≡ actor) × (e.action ≡ action) × (e.detail ≡ detail)
      → IsChain f (e ∷ es)
      → IsLine e line
      → read_all f (add_part f (line ++ codes "\n") file) ≡ ok (e ∷ es)
      → EndsLine file
      → Appended now actor action detail file es
          (finish f outcome e (line ++ codes "\n") (record { last = latest f es }) file)
  unfolding finish
  finish-Appended not_opened now actor action detail file es e line words chain l read end =
      (refl, inl refl)
  finish-Appended (torn n) now actor action detail file es e line words chain l read end =
      let (rest, whole) = first_runes-rest n (line ++ codes "\n") in
      let beginning : IsBeginning es (first_runes n (line ++ codes "\n")) = record {
        next = e;
        line = line;
        missing = rest;
        continues = chain;
        is_line = l;
        begins = whole;
      } in
      (refl, inr (first_runes n (line ++ codes "\n"), beginning, refl))
  finish-Appended all_written now actor action detail file es e line (ts, by, did, about) chain l
        read end =
      (refl, ts, by, did, about, read, add_part-EndsLine file line end)

  -- For a writer at the end of a log that ReadAll accepts and that is absent, empty or ends with a line
  -- feed: if JSON gives back the entry that continues the log with the caller's words, then after an
  -- Append that succeeds ReadAll gives this entry and then the old ones, the entry has the caller's
  -- words and is the writer's last one, and the log ends with a line feed again. Where Append fails,
  -- the writer is as before, and the file too, or it has more at its end the beginning of the line of
  -- an entry that continues the log, or that whole line.
  pub append-read_all :
      (outcome : WriteOutcome) (now actor action : Text) (detail : f.Detail) (file : LogFile)
      (es : List (Entry f))
      → EndsLine file
      → ((e : Entry f) (line : Text)
          → IsChain f (e ∷ es)
          → e.ts ≡ now
          → e.actor ≡ actor
          → e.action ≡ action
          → e.detail ≡ detail
          → encode_entry f e ≡ some line
          → IsLine e line)
      → read_all f file ≡ ok es
      → Appended now actor action detail file es
          (append f outcome now actor action detail (record { last = latest f es }) file)
  unfolding append hash_entry
  append-read_all outcome now actor action detail file es end reads_back h =
      let chain = read_all-IsChain f file es h in
      let e = draft f (record { last = latest f es }) now actor action detail in
      let (linked, number, ts, by, did, about) = draft-Continues now actor action detail es chain in
      elim (Option-cases (hash_entry f e)) [
        | inl g ↦ rw (g, append) (refl, inl refl)
        | inr (made, g) ↦ elim (Option-cases (encode_entry f (record e { entry_hash = made }))) [
          | inl k ↦ rw (g, k, append) (refl, inl refl)
          | inr (line, k) ↦
              let e' = record e { entry_hash = made } in
              let longer : IsChain f (e' ∷ es) = (linked, number, g, chain) in
              let is_line = reads_back e' line longer ts by did about k in
              rw (g, k, append)
                (finish-Appended outcome now actor action detail file es e' line
                  (ts, by, did, about) longer is_line
                  (read_appended file es e' line end is_line longer h) end)
        ]
      ]
