-- ===== src/Audit.antt =====
-- internal/audit/audit.go: the audit log, a chain in which each entry holds the hash of the one before.
-- SHA-256 over the JSON of an entry, and the JSON of a line, are the parameter `Format`.
pub mod Chains
pub mod Appending
pub mod Lines
pub mod Tests
use hermes_security_skills.Base.{
  List, Option, Result, [], deny_if, eqb, err, if◌then◌else◌, length, none, not, ok, some, suc,
  zero, ℕ, ◌&&◌, ◌++◌, ◌>>=◌, ◌>>◌, ◌∷◌,
}
use hermes_security_skills.Base.Int.{lebℤ, pos, ℤ, ◌+ℤ◌}
use hermes_security_skills.Base.Text.{Text, codes, is_blank, split, trim_space, ◌==◌}

pub record Format : Type 1 where
  pub Detail : Type 0
  pub hash : ℤ → Text → Text → Text → Detail → Text → Option Text
  pub decode : Text → Option (ℤ × Text × Text × Text × Detail × Text × Text)
  pub encode : ℤ → Text → Text → Text → Detail → Text → Text → Option Text

pub data AuditError : Type 0 where
  unreadable_log blank_line bad_line broken_chain bad_seq no_hash_made bad_hash : AuditError
  not_encoded not_written : AuditError

abbrev pub genesis_prev_hash : Text
genesis_prev_hash = []

pub data LogFile : Type 0 where
  no_log unreadable_file : LogFile
  log_text : Text → LogFile

-- The file could not be opened; it was, and made where there was none, but only a part of the line was
-- written, or nothing of it; or all of it was.
pub data WriteOutcome : Type 0 where
  not_opened all_written : WriteOutcome
  torn : ℕ → WriteOutcome

unfoldable pub first_runes : ℕ → Text → Text
first_runes zero s = []
first_runes (suc n) [] = []
first_runes (suc n) (c ∷ s) = c ∷ first_runes n s

module _ (f : Format) where
  pub record Entry : Type 0 where
    pub seq : ℤ
    pub ts : Text
    pub actor : Text
    pub action : Text
    pub detail : f.Detail
    pub prev_hash : Text
    pub entry_hash : Text

  unfoldable pub hash_entry : Entry → Option Text
  hash_entry e = f.hash e.seq e.ts e.actor e.action e.detail e.prev_hash

  abbrev pub entry_of : ℤ × Text × Text × Text × f.Detail × Text × Text → Entry
  entry_of (seq, ts, actor, action, detail, prev, hash) = record {
    seq = seq;
    ts = ts;
    actor = actor;
    action = action;
    detail = detail;
    prev_hash = prev;
    entry_hash = hash;
  }

  -- The tests on one line, behind the entries read so far.
  unfoldable pub check_entry : Text → ℕ → Entry → Result AuditError Entry
  unfolding hash_entry
  check_entry prev n e = do
    deny_if (not (e.prev_hash == prev)) broken_chain
    deny_if (not (lebℤ e.seq (pos (suc n)) && lebℤ (pos (suc n)) e.seq)) bad_seq
    elim (hash_entry e) [
      | none ↦ err no_hash_made
      | some h ↦ if not (h == e.entry_hash) then err bad_hash else ok e
    ]

  unfoldable pub read_line : Text → Result AuditError Entry
  read_line ln = elim (f.decode ln) [ none ↦ err bad_line | some fields ↦ ok (entry_of fields) ]

  -- The loop of ReadAll; `out` has the entries read so far, the latest first.
  unfoldable pub read_lines : Text → List Entry → List Text → Result AuditError (List Entry)
  unfolding check_entry read_line
  read_lines prev out [] = ok out
  read_lines prev out (ln ∷ rest) =
      let next = (do
        e ← read_line (trim_space ln)
        e' ← check_entry prev (length out) e
        read_lines e'.entry_hash (e' ∷ out) rest) in
      let skipped = read_lines prev out rest in
      if is_blank ln then (if eqb (length rest) 0 then skipped else err blank_line) else next

  unfoldable pub read_all : LogFile → Result AuditError (List Entry)
  unfolding read_lines
  read_all no_log = ok []
  read_all unreadable_file = err unreadable_log
  read_all (log_text s) = read_lines genesis_prev_hash [] (split b'\n' s)

  unfoldable pub verify : LogFile → Result AuditError (Unit {0})
  unfolding read_all
  verify file = do es ← read_all file; ok tt

  -- A writer: its last entry.
  pub record Writer : Type 0 where
    pub last : Option Entry

  abbrev pub latest : List Entry → Option Entry
  latest [] = none
  latest (e ∷ _) = some e

  unfoldable pub open_log : LogFile → Result AuditError Writer
  unfolding read_all
  open_log file = do es ← read_all file; ok (record { last = latest es })

  -- The entry of Append before its hash.
  unfoldable pub draft : Writer → Text → Text → Text → f.Detail → Entry
  draft w now actor action detail = elim w.last [
    | none ↦ record {
      seq = pos 1;
      ts = now;
      actor = actor;
      action = action;
      detail = detail;
      prev_hash = genesis_prev_hash;
      entry_hash = [];
    }
    | some e ↦ record {
      seq = e.seq +ℤ pos 1;
      ts = now;
      actor = actor;
      action = action;
      detail = detail;
      prev_hash = e.entry_hash;
      entry_hash = [];
    }
  ]

  -- What os.OpenFile with O_APPEND and Write add to the file.
  abbrev pub add_part : Text → LogFile → LogFile
  add_part part no_log = log_text part
  add_part part unreadable_file = unreadable_file
  add_part part (log_text s) = log_text (s ++ part)

  abbrev pub encode_entry : Entry → Option Text
  encode_entry e = f.encode e.seq e.ts e.actor e.action e.detail e.prev_hash e.entry_hash

  -- The end of Append, with the line that it writes.
  unfoldable pub finish :
      WriteOutcome → Entry → Text → Writer → LogFile → Result AuditError Entry × Writer × LogFile
  unfolding first_runes
  finish not_opened e bytes w file = (err not_written, w, file)
  finish (torn n) e bytes w file = (err not_written, w, add_part (first_runes n bytes) file)
  finish all_written e bytes w file = (ok e, record { last = some e }, add_part bytes file)

  -- Append, with what becomes of its writing. A torn line is cut between two code points.
  unfoldable pub append :
      WriteOutcome
      → Text
      → Text
      → Text
      → f.Detail
      → Writer
      → LogFile
      → Result AuditError Entry × Writer × LogFile
  unfolding hash_entry draft finish
  append outcome now actor action detail w file =
      let e = draft w now actor action detail in
      elim (hash_entry e) [
        | none ↦ (err no_hash_made, w, file)
        | some h ↦
            let e' = record e { entry_hash = h } in
            elim (encode_entry e') [
              | none ↦ (err not_encoded, w, file)
              | some line ↦ finish outcome e' (line ++ codes "\n") w file
            ]
      ]
