-- ===== src/Memory/Tests.antt =====
-- The theorems on the states of an entry at concrete entries.
use hermes_security_skills.Base.{[], all, err, false, keep, none, ok, refl, some, true, ◌∷◌, ◌≡◌}
use hermes_security_skills.Base.Text.{codes, is_space, trim_left, trim_right, trim_space, ◌==◌}
use hermes_security_skills.Memory.{
  MemoryEntry, MemoryFiles, already_there, can_transition, complete_entry, has_file, is_one_of,
  is_printable, is_promoted, is_slug, knowledge_dir, move_entry, put_file, remove_file, same_path,
  set_state_file, state_captured, state_normalized, state_proposed, state_reviewed, state_stale,
  transitions, trust_trusted, trust_untrusted, valid_state, validate_entry, write_entry,
  write_file_at,
}
use hermes_security_skills.Memory.Firewall.{IsConfined, run_states, run_states-IsConfined}
use hermes_security_skills.Memory.Rereview.{rereview_refused}

abbrev note : MemoryEntry
note = record {
  id = codes "xss-note";
  title = codes "XSS";
  category = codes "web";
  source = codes "docs";
  provenance_source = codes "human";
  trust = trust_trusted;
  confidence_in_range = true;
  state = state_reviewed;
  last_reviewed = some 1;
  expires_at = none;
  body = [];
  path = (codes "reviewed", codes "xss-note");
}

abbrev stale_note : MemoryEntry
stale_note = record note { state = state_stale }

-- The same from a target, in the memory of its case.
abbrev target_note : MemoryEntry
target_note = record note {
  trust = trust_untrusted;
  state = state_captured;
  path = (codes "case-1", codes "xss-note");
}

abbrev stored : MemoryEntry → MemoryEntry × MemoryFiles
stored e = (e, (e.path, e) ∷ [])

memory : Unit {0}
unfolding set_state_file can_transition valid_state transitions is_one_of write_file_at put_file
    remove_file keep same_path complete_entry validate_entry is_slug is_printable all trim_space
    trim_left trim_right is_space move_entry write_entry knowledge_dir has_file ◌==◌
memory = tt

made_stale : set_state_file 2 state_stale note (stored note).1 ≡ ok (stored stale_note)
unfolding memory
made_stale = refl

in_reviewed : note.path ≡ (knowledge_dir state_reviewed, note.id)
unfolding memory
in_reviewed = refl

captured_low : is_promoted target_note.state ≡ false
unfolding memory
captured_low = refl

rereview_refused_example :
    set_state_file 3 state_reviewed stale_note (stored stale_note).1 ≡ err already_there
rereview_refused_example =
    rereview_refused 2 3 note (stored note).1 (stored stale_note) refl in_reviewed made_stale

run_states-IsConfined_example : IsConfined (stored target_note) (
    run_states
      ((2, state_normalized) ∷ (3, state_proposed) ∷ (4, state_reviewed) ∷ (5, state_stale) ∷ [])
      (stored target_note))
run_states-IsConfined_example =
    run_states-IsConfined
      ((2, state_normalized) ∷ (3, state_proposed) ∷ (4, state_reviewed) ∷ (5, state_stale) ∷ [])
      (stored target_note) refl captured_low

-- The calls of the example are granted but for that to the state reviewed.
promotion_refused :
    (run_states
      ((2, state_normalized) ∷ (3, state_proposed) ∷ (4, state_reviewed) ∷ (5, state_stale) ∷ [])
      (stored target_note)).0.state
    ≡ state_stale
unfolding memory run_states
promotion_refused = refl
