-- ===== src/Memory.antt =====
-- internal/memory/entry.go and store.go: the states of an entry of the knowledge base, its validation,
-- and SetState with the files that it writes. A file holds the entry itself; rendering it as Markdown
-- and reading it back is left out, and so are failures of the disk.
pub mod Firewall
pub mod Rereview
pub mod Tests
use hermes_security_skills.Base.{
  Bool, List, Option, Result, [], all, deny_if, eqb, false, if◌then◌else◌, keep, leb, length, ltb,
  none, not, ok, some, true, ℕ, ◌&&◌, ◌>>=◌, ◌>>◌, ◌||◌, ◌∷◌,
}
use hermes_security_skills.Base.Text.{Text, codes, is_blank, is_empty, ◌==◌}

abbrev pub state_captured : Text
state_captured = codes "captured"

abbrev pub state_normalized : Text
state_normalized = codes "normalized"

abbrev pub state_proposed : Text
state_proposed = codes "proposed"

abbrev pub state_reviewed : Text
state_reviewed = codes "reviewed"

abbrev pub state_trusted : Text
state_trusted = codes "trusted"

abbrev pub state_stale : Text
state_stale = codes "stale"

abbrev pub state_archived : Text
state_archived = codes "archived"

abbrev pub trust_trusted : Text
trust_trusted = codes "trusted"

abbrev pub trust_untrusted : Text
trust_untrusted = codes "untrusted"

-- Whether a text is one of the texts.
unfoldable pub is_one_of : List Text → Text → Bool
unfolding ◌==◌
is_one_of [] s = false
is_one_of (t ∷ ts) s = t == s || is_one_of ts s

-- ValidState
unfoldable pub valid_state : Text → Bool
unfolding is_one_of
valid_state s =
    is_one_of
      (state_captured ∷ state_normalized ∷ state_proposed ∷ state_reviewed ∷ state_trusted
        ∷ state_stale ∷ state_archived ∷ [])
      s

-- The table of the transitions.
unfoldable pub transitions : Text → List Text
unfolding ◌==◌
transitions s =
    if s == state_captured
    then state_normalized ∷ state_stale ∷ state_archived ∷ []
    else if s == state_normalized
    then state_proposed ∷ state_stale ∷ state_archived ∷ []
    else if s == state_proposed
    then state_reviewed ∷ state_stale ∷ state_archived ∷ []
    else if s == state_reviewed
    then state_trusted ∷ state_stale ∷ state_archived ∷ []
    else if s == state_trusted
    then state_stale ∷ state_archived ∷ []
    else if s == state_stale
    then state_reviewed ∷ state_archived ∷ []
    else []

unfoldable pub can_transition : Text → Text → Bool
unfolding valid_state transitions is_one_of
can_transition from to = valid_state from && valid_state to && is_one_of (transitions from) to

-- A directory and an id, which names the file in it.
abbrev pub EntryPath : Type 0
EntryPath = Text × Text

-- A confidence is a float64; what is kept of it is whether it lies in 0..1.
pub record MemoryEntry : Type 0 where
  pub id : Text
  pub title : Text
  pub category : Text
  pub source : Text
  pub provenance_source : Text
  pub trust : Text
  pub confidence_in_range : Bool
  pub state : Text
  pub last_reviewed : Option ℕ
  pub expires_at : Option ℕ
  pub body : Text
  pub path : EntryPath

pub data MemoryError : Type 0 where
  bad_id control_rune missing_field unknown_trust bad_confidence unknown_state : MemoryError
  incomplete already_there invalid_transition firewall : MemoryError

abbrev is_slug_rune : ℕ → Bool
is_slug_rune c =
    leb b'a' c && leb c b'z' || leb b'0' c && leb c b'9' || eqb c b'.' || eqb c b'_' || eqb c b'-'

-- isSlug
unfoldable pub is_slug : Text → Bool
unfolding all
is_slug [] = false
is_slug (c ∷ s) =
    not (ltb 128 (length (c ∷ s))) && not (eqb c b'.' || eqb c b'-') && all is_slug_rune (c ∷ s)

-- No control rune but a line feed or a tab.
unfoldable pub is_printable : Text → Bool
unfolding all
is_printable s = all (λ c. not (ltb c 32) || eqb c 10 || eqb c 9) s

-- Entry.validate
unfoldable pub validate_entry : MemoryEntry → Result MemoryError (Unit {0})
unfolding is_slug is_printable is_one_of valid_state
validate_entry e = do
  deny_if (not (is_empty e.id) && not (is_slug e.id)) bad_id
  deny_if
      (not (
        is_printable e.title
        && is_printable e.category
        && is_printable e.source
        && is_printable e.provenance_source))
      control_rune
  deny_if
      (is_blank e.title || is_blank e.category || is_blank e.source || is_blank e.provenance_source)
      missing_field
  deny_if (not (is_one_of (trust_trusted ∷ trust_untrusted ∷ []) e.trust)) unknown_trust
  deny_if (not e.confidence_in_range) bad_confidence
  deny_if (not (is_empty e.state) && not (valid_state e.state)) unknown_state

abbrev has_time : Option ℕ → Bool
has_time none = false
has_time (some t) = true

-- Entry.complete
unfoldable pub complete_entry : MemoryEntry → Result MemoryError (Unit {0})
unfolding validate_entry
complete_entry e = do
  validate_entry e
  deny_if (is_empty e.id || is_empty e.state || not (has_time e.last_reviewed)) incomplete

-- Store.knowledgeDir, below the directory of the knowledge base.
unfoldable pub knowledge_dir : Text → Text
unfolding ◌==◌
knowledge_dir s =
    if s == state_reviewed
    then codes "reviewed"
    else if s == state_trusted
    then codes "canonical"
    else codes "proposed"

abbrev pub MemoryFiles : Type 0
MemoryFiles = List (EntryPath × MemoryEntry)

unfoldable pub same_path : EntryPath → EntryPath → Bool
unfolding ◌==◌
same_path p q = p.0 == q.0 && p.1 == q.1

unfoldable pub has_file : EntryPath → MemoryFiles → Bool
unfolding same_path
has_file p [] = false
has_file p (f ∷ fs) = same_path f.0 p || has_file p fs

-- os.WriteFile and os.Remove on one path.
unfoldable pub remove_file : EntryPath → MemoryFiles → MemoryFiles
unfolding keep same_path
remove_file p fs = keep (λ f. not (same_path f.0 p)) fs

unfoldable pub put_file : EntryPath → MemoryEntry → MemoryFiles → MemoryFiles
unfolding remove_file
put_file p e fs = (p, e) ∷ remove_file p fs

-- Store.writeEntry
unfoldable pub write_entry : Text → MemoryEntry → MemoryFiles → Result MemoryError MemoryFiles
unfolding is_slug has_file complete_entry put_file
write_entry dir e fs = do
  deny_if (not (is_slug e.id)) bad_id
  deny_if (has_file (dir, e.id) fs) already_there
  complete_entry e
  ok (put_file (dir, e.id) e fs)

-- Store.writeFileAt on an entry that was read from its file.
unfoldable pub write_file_at : MemoryEntry → MemoryFiles → Result MemoryError MemoryFiles
unfolding complete_entry put_file
write_file_at e fs = do complete_entry e; ok (put_file e.path e fs)

abbrev pub is_promoted : Text → Bool
is_promoted s = s == state_reviewed || s == state_trusted

-- The entry in its new state.
abbrev pub in_state : ℕ → Text → MemoryEntry → MemoryEntry
in_state now to e = record e {
  state = to;
  last_reviewed = if is_promoted to then some now else e.last_reviewed;
}

-- The file is written to the directory of the state, and the old one removed.
unfoldable pub move_entry : MemoryEntry → MemoryFiles → Result MemoryError MemoryFiles
unfolding write_entry knowledge_dir same_path remove_file
move_entry e fs = do
  written ← write_entry (knowledge_dir e.state) e fs
  ok (
      if same_path e.path (knowledge_dir e.state, e.id)
      then written
      else remove_file e.path written)

-- Where the entry is written in its new state.
abbrev pub write_state : Text → MemoryEntry → MemoryFiles → Result MemoryError MemoryFiles
write_state to e fs =
    if to == state_stale || to == state_archived || e.trust == trust_untrusted
    then write_file_at e fs
    else move_entry e fs

-- Store.setStateFile
unfoldable pub set_state_file :
    ℕ → Text → MemoryEntry → MemoryFiles → Result MemoryError (MemoryEntry × MemoryFiles)
unfolding can_transition write_file_at move_entry ◌==◌
set_state_file now to e fs = do
  deny_if (e.state == to) invalid_transition
  deny_if (e.trust == trust_untrusted && is_promoted to) firewall
  deny_if (not (can_transition e.state to)) invalid_transition
  written ← write_state to (in_state now to e) fs
  ok (in_state now to e, written)
