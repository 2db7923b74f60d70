-- ===== src/Memory/Firewall.antt =====
-- internal/memory/store.go: what SetState never does with the content of a target, over each history.
use mathlib.Core.Path.{subst}
use hermes_security_skills.Base.{
  >>=-eq-ok, Bool, Bool-cases, List, Result-cases, [], ap, arith, err, false, guard-eq-ok, inl, inr,
  keep, not, ok, ok-injective, refl, sym, true, ℕ, ◌&&◌, ◌||◌, ◌∙◌, ◌∷◌, ◌≡◌,
}
use hermes_security_skills.Base.Text.{Text, ◌==◌}
use hermes_security_skills.Base.Text.Laws.{==_iff, ==_refl}
use hermes_security_skills.Memory.{
  EntryPath, MemoryEntry, MemoryFiles, can_transition, complete_entry, firewall, in_state,
  invalid_transition, is_promoted, put_file, remove_file, same_path, set_state_file, state_archived,
  state_stale, trust_untrusted, write_file_at, write_state,
}

-- A call of SetState that is refused leaves the entry and the files as they were.
abbrev pub set_state_step : ℕ × Text → MemoryEntry × MemoryFiles → MemoryEntry × MemoryFiles
set_state_step (now, to) (e, fs) = elim (set_state_file now to e fs) [ ok r ↦ r | err x ↦ (e, fs) ]

unfoldable pub run_states : List (ℕ × Text) → MemoryEntry × MemoryFiles → MemoryEntry × MemoryFiles
run_states [] w = w
run_states (c ∷ calls) w = run_states calls (set_state_step c w)

-- The same content, still not promoted, and no file but its own was written.
pub record IsConfined (w v : MemoryEntry × MemoryFiles) : Type 0 where
  pub trust : v.0.trust ≡ w.0.trust
  pub body : v.0.body ≡ w.0.body
  pub path : v.0.path ≡ w.0.path
  pub not_promoted : is_promoted v.0.state ≡ false
  pub others : remove_file w.0.path v.1 ≡ remove_file w.0.path w.1

keep-keep : (p : EntryPath × MemoryEntry → Bool) (fs : MemoryFiles) → keep p (keep p fs) ≡ keep p fs
unfolding keep
keep-keep p [] = refl
keep-keep p (f ∷ fs) = elim (Bool-cases (p f)) [
  | inl e ↦ rw (e, keep) (rw (e, keep) (ap (λ x. f ∷ x) (keep-keep p fs)))
  | inr e ↦ rw (e, keep) (keep-keep p fs)
]

same_path_refl : (p : EntryPath) → same_path p p ≡ true
unfolding same_path
same_path_refl p = rw (==_refl p.0, ==_refl p.1) refl

remove_file-put_file :
    (p : EntryPath) (e : MemoryEntry) (fs : MemoryFiles)
    → remove_file p (put_file p e fs) ≡ remove_file p fs
unfolding put_file remove_file keep
remove_file-put_file p e fs = rw (same_path_refl p, not) (keep-keep (λ f. not (same_path f.0 p)) fs)

-- A call that is granted to the content of a target does not promote it, and writes its own file.
set_state_file-untrusted :
    (now : ℕ) (to : Text) (e : MemoryEntry) (fs : MemoryFiles) (r : MemoryEntry × MemoryFiles)
    → e.trust ≡ trust_untrusted
    → set_state_file now to e fs ≡ ok r
    → (is_promoted to ≡ false) × ((in_state now to e, put_file e.path (in_state now to e) fs) ≡ r)
unfolding set_state_file write_file_at
set_state_file-untrusted now to e fs r is_target h =
    let untrusted : e.trust == trust_untrusted ≡ true =
      (==_iff e.trust trust_untrusted).1 is_target in
    let (_, h1) = guard-eq-ok (e.state == to) invalid_transition _ h in
    let (not_both, h2) = guard-eq-ok (e.trust == trust_untrusted && is_promoted to) firewall _ h1 in
    let (_, h3) = guard-eq-ok (not (can_transition e.state to)) invalid_transition _ h2 in
    let (written, made, h4) =
      >>=-eq-ok (write_state to (in_state now to e) fs) (λ x. ok (in_state now to e, x)) h3 in
    let own : (to == state_stale || to == state_archived || e.trust == trust_untrusted) ≡ true =
      ground arith in
    let (_, _, h5) = >>=-eq-ok (complete_entry (in_state now to e)) _ (rw own at made) in
    (ground arith, ap (λ fs2. (in_state now to e, fs2)) (ok-injective h5) ∙ ok-injective h4)

set_state_step-IsConfined :
    (now : ℕ) (to : Text) (w : MemoryEntry × MemoryFiles)
    → w.0.trust ≡ trust_untrusted
    → is_promoted w.0.state ≡ false
    → IsConfined w (set_state_step (now, to) w)
set_state_step-IsConfined now to (e, fs) is_target low =
    elim (Result-cases (set_state_file now to e fs)) [
      | inr (_, refused) ↦
          rw (refused, set_state_step)
            (record { trust = refl; body = refl; path = refl; not_promoted = low; others = refl })
      | inl (r, granted) ↦
          let (high, same) = set_state_file-untrusted now to e fs r is_target granted in
          rw (granted, set_state_step)
            (subst (IsConfined (e, fs)) same (record {
              trust = refl;
              body = refl;
              path = refl;
              not_promoted = high;
              others = remove_file-put_file e.path (in_state now to e) fs;
            }))
    ]

-- Over each history of calls of SetState on an entry with the content of a target, granted or refused,
-- the entry stays untrusted, keeps its body, and is never in the state reviewed or trusted; it stays in
-- its own file, and no other file is written or removed.
pub run_states-IsConfined :
    (calls : List (ℕ × Text)) (w : MemoryEntry × MemoryFiles)
    → w.0.trust ≡ trust_untrusted
    → is_promoted w.0.state ≡ false
    → IsConfined w (run_states calls w)
unfolding run_states
run_states-IsConfined [] w is_target low = record {
  trust = refl;
  body = refl;
  path = refl;
  not_promoted = low;
  others = refl;
}
run_states-IsConfined ((now, to) ∷ calls) w is_target low =
    let first = set_state_step-IsConfined now to w is_target low in
    let v = set_state_step (now, to) w in
    let rest = run_states-IsConfined calls v (first.trust ∙ is_target) first.not_promoted in
    record {
      trust = rest.trust ∙ first.trust;
      body = rest.body ∙ first.body;
      path = rest.path ∙ first.path;
      not_promoted = rest.not_promoted;
      others =
          ap (λ p. remove_file p (run_states calls v).1) (sym first.path)
          ∙ rest.others
          ∙ ap (λ p. remove_file p v.1) first.path
          ∙ first.others;
    }
