-- ===== src/Memory/Rereview.antt =====
-- internal/memory/store.go: the re-review of an entry that became stale.
use mathlib.Core.Path.{subst}
use hermes_security_skills.Base.{
  >>=-eq-ok, ap, arith, err, false, guard-eq-ok, not, ok, ok-injective, refl, true, ℕ, ◌&&◌, ◌>>=◌,
  ◌||◌, ◌∙◌, ◌≡◌,
}
use hermes_security_skills.Approval.Store.{complete}
use hermes_security_skills.Base.Text.{is_empty, ◌==◌}
use hermes_security_skills.Base.Text.Laws.{==_refl}
use hermes_security_skills.Memory.{
  EntryPath, MemoryEntry, MemoryFiles, already_there, bad_id, can_transition, complete_entry,
  firewall, has_file, has_time, in_state, invalid_transition, is_one_of, is_promoted, is_slug,
  knowledge_dir, move_entry, put_file, same_path, set_state_file, state_reviewed, state_stale,
  transitions, trust_trusted, trust_untrusted, valid_state, validate_entry, write_entry,
  write_file_at, write_state,
}

has_file-put_file :
    (p : EntryPath) (e : MemoryEntry) (fs : MemoryFiles) → has_file p (put_file p e fs) ≡ true
unfolding has_file put_file same_path
has_file-put_file p e fs = rw (==_refl p.0, ==_refl p.1) refl

-- A complete entry has an id that may name a file.
complete_entry-is_slug : (e : MemoryEntry) → complete_entry e ≡ ok tt → is_slug e.id ≡ true
unfolding complete_entry validate_entry
complete_entry-is_slug e h =
    let (_, valid, h1) = >>=-eq-ok (validate_entry e) _ h in
    let (named, _) = guard-eq-ok (not (is_empty e.id) && not (is_slug e.id)) bad_id _ valid in
    let full : is_empty e.id || is_empty e.state || not (has_time e.last_reviewed) ≡ false =
      ground arith in
    ground arith

-- A move to the directory in which the file of the entry already is.
move_entry-already_there :
    (e : MemoryEntry) (fs : MemoryFiles)
    → is_slug e.id ≡ true
    → has_file (knowledge_dir e.state, e.id) fs ≡ true
    → move_entry e fs ≡ err already_there
unfolding move_entry write_entry
move_entry-already_there e fs named there = rw (named, there) refl

-- A granted call that makes an entry stale writes it to its own file.
set_state_file-stale :
    (now : ℕ) (e : MemoryEntry) (fs : MemoryFiles) (r : MemoryEntry × MemoryFiles)
    → set_state_file now state_stale e fs ≡ ok r
    → (complete_entry (in_state now state_stale e) ≡ ok tt)
      × ((in_state now state_stale e, put_file e.path (in_state now state_stale e) fs) ≡ r)
unfolding set_state_file write_file_at ◌==◌
set_state_file-stale now e fs r h =
    let e2 = in_state now state_stale e in
    let (_, h1) = guard-eq-ok (e.state == state_stale) invalid_transition _ h in
    let (_, h2) =
      guard-eq-ok (e.trust == trust_untrusted && is_promoted state_stale) firewall _ h1 in
    let (_, h3) = guard-eq-ok (not (can_transition e.state state_stale)) invalid_transition _ h2 in
    let (written, made, h4) = >>=-eq-ok (write_state state_stale e2 fs) (λ x. ok (e2, x)) h3 in
    let (_, complete, h5) = >>=-eq-ok (complete_entry e2) _ made in
    (complete, ap (λ x. (e2, x)) (ok-injective h5) ∙ ok-injective h4)

-- A stale entry of the knowledge base is moved to the reviewed ones.
set_state_file-reviewed :
    (later : ℕ) (e : MemoryEntry) (fs : MemoryFiles)
    → e.trust ≡ trust_trusted
    → e.state ≡ state_stale
    → set_state_file later state_reviewed e fs ≡ (
        move_entry (in_state later state_reviewed e) fs >>= λ x.
        ok (in_state later state_reviewed e, x))
unfolding set_state_file can_transition valid_state transitions is_one_of ◌==◌
set_state_file-reviewed later e fs trusted stale = rw (trusted, stale) refl

-- An entry of the knowledge base whose file is in the directory of the reviewed entries, and that a
-- granted call made stale, cannot be reviewed again: the call is refused, since the directory already
-- has the file, which is the file of the entry itself.
pub rereview_refused :
    (now later : ℕ) (e : MemoryEntry) (fs : MemoryFiles) (r : MemoryEntry × MemoryFiles)
    → e.trust ≡ trust_trusted
    → e.path ≡ (knowledge_dir state_reviewed, e.id)
    → set_state_file now state_stale e fs ≡ ok r
    → set_state_file later state_reviewed r.0 r.1 ≡ err already_there
rereview_refused now later e fs r trusted path h =
    let (complete, same) = set_state_file-stale now e fs r h in
    let e2 = in_state now state_stale e in
    let fs2 = put_file e.path e2 fs in
    let named = complete_entry-is_slug e2 complete in
    let there : has_file (knowledge_dir state_reviewed, e.id) fs2 ≡ true =
      subst (λ p. has_file p fs2 ≡ true) path (has_file-put_file e.path e2 fs) in
    let moved = move_entry-already_there (in_state later state_reviewed e2) fs2 named there in
    let e3 = in_state later state_reviewed e2 in
    subst (λ w. set_state_file later state_reviewed w.0 w.1 ≡ err already_there) same
      (set_state_file-reviewed later e2 fs2 trusted refl ∙ ap (λ m. m >>= λ x. ok (e3, x)) moved)
