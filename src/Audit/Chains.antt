-- ===== src/Audit/Chains.antt =====
-- internal/audit/audit.go: the chains of entries that ReadAll accepts.
use mathlib.Core.Path.{subst, ap₂}
use hermes_security_skills.Base.{
  >>=-eq-ok, Bool-cases, List, Option-cases, [], ap, arith, eqb, guard-eq-ok, inl, inr, length, not,
  not-eq-false, ok, ok-injective, refl, some, suc, sym, ℕ, ◌&&◌, ◌∙◌, ◌∷◌, ◌≡◌, ◌≢◌,
}
use hermes_security_skills.Audit.{
  Entry, Format, LogFile, bad_seq, broken_chain, check_entry, genesis_prev_hash, hash_entry,
  log_text, no_log, read_all, read_line, read_lines, unreadable_file,
}
use hermes_security_skills.Base.Int.{eq_of_parts, lebℤ, pos, ℤ}
use hermes_security_skills.Base.Text.{Text, is_blank, split, trim_space, ◌==◌}
use hermes_security_skills.Base.Text.Laws.{==_iff}

module _ (f : Format) where
  abbrev pub last_hash : List (Entry f) → Text
  last_hash [] = genesis_prev_hash
  last_hash (e ∷ _) = e.entry_hash

  -- The latest entry first: its number, the hash of the one before, and its own hash.
  abbrev pub IsChain : List (Entry f) → Type 0
  IsChain [] = Unit
  IsChain (e ∷ es) =
      (e.prev_hash ≡ last_hash es)
      × (e.seq ≡ pos (suc (length es)))
      × (hash_entry f e ≡ some e.entry_hash)
      × IsChain es

  check_entry-ok :
      (prev : Text) (n : ℕ) (e e' : Entry f)
      → check_entry f prev n e ≡ ok e'
      → (e ≡ e')
        × (e.prev_hash ≡ prev)
        × (e.seq ≡ pos (suc n))
        × (hash_entry f e ≡ some e.entry_hash)
  unfolding check_entry
  check_entry-ok prev n e e' h =
      let (linked, h1) = guard-eq-ok (not (e.prev_hash == prev)) broken_chain _ h in
      let (number, h2) =
        guard-eq-ok (not (lebℤ e.seq (pos (suc n)) && lebℤ (pos (suc n)) e.seq)) bad_seq _ h1 in
      elim (Option-cases (hash_entry f e)) [
        | inl g ↦ (let impossible = rw g at h2 in cc)
        | inr (made, g) ↦ elim (Bool-cases (made == e.entry_hash)) [
          | inr other ↦ (let impossible = rw (g, other) at h2 in cc)
          | inl same ↦ (
            ok-injective (rw (g, same) at h2),
            (==_iff e.prev_hash prev).0 (not-eq-false _ linked),
            eq_of_parts e.seq (pos (suc n)) (ground arith),
            g ∙ ap some ((==_iff made e.entry_hash).0 same),
          )
        ]
      ]

  read_lines-IsChain :
      (prev : Text) (out : List (Entry f)) (lines : List Text) (es : List (Entry f))
      → IsChain out
      → prev ≡ last_hash out
      → read_lines f prev out lines ≡ ok es
      → IsChain es
  unfolding read_lines
  read_lines-IsChain prev out [] es chain same h = subst IsChain (ok-injective h) chain
  read_lines-IsChain prev out (ln ∷ rest) es chain same h = elim (Bool-cases (is_blank ln)) [
    | inl blank ↦ elim (Bool-cases (eqb (length rest) 0)) [
      | inl end ↦ read_lines-IsChain prev out rest es chain same (rw (blank, end, read_lines) at h)
      | inr more ↦ (let impossible = rw (blank, more, read_lines) at h in cc)
    ]
    | inr full ↦
        let (e, _, h1) = >>=-eq-ok (read_line f (trim_space ln)) _ (rw (full, read_lines) at h) in
        let (e', checked, h2) = >>=-eq-ok (check_entry f prev (length out) e) _ h1 in
        let (same_e, linked, number, hashed) = check_entry-ok prev (length out) e e' checked in
        read_lines-IsChain e'.entry_hash (e' ∷ out) rest es
          (subst (λ x. IsChain (x ∷ out)) same_e (linked ∙ same, number, hashed, chain)) refl h2
  ]

  pub read_all-IsChain :
      (file : LogFile) (es : List (Entry f)) → read_all f file ≡ ok es → IsChain es
  unfolding read_all
  read_all-IsChain no_log es h = subst IsChain (ok-injective h) tt
  read_all-IsChain unreadable_file es h = absurd (ground arith)
  read_all-IsChain (log_text s) es h =
      read_lines-IsChain genesis_prev_hash [] (split b'\n' s) es tt refl h

  -- Two contents with the same hash are the same, and no hash is the empty text: what the code relies
  -- on of SHA-256 over JSON.
  module _
      (no_collision : (s s' : ℤ) (ts ts' actor actor' action action' : Text) (d d' : f.Detail)
          (prev prev' h : Text)
        → f.hash s ts actor action d prev ≡ some h
        → f.hash s' ts' actor' action' d' prev' ≡ some h
        → (s ≡ s') × (ts ≡ ts') × (actor ≡ actor') × (action ≡ action') × (d ≡ d') × (prev ≡ prev'))
      (not_genesis : (s : ℤ) (ts actor action : Text) (d : f.Detail) (prev : Text)
        → f.hash s ts actor action d prev ≢ some genesis_prev_hash) where
    not_empty :
        (e : Entry f) → hash_entry f e ≡ some e.entry_hash → genesis_prev_hash ≢ e.entry_hash
    unfolding hash_entry
    not_empty e hashed same =
        not_genesis e.seq e.ts e.actor e.action e.detail e.prev_hash (hashed ∙ ap some (sym same))

    IsChain-unique :
        (es es' : List (Entry f))
        → IsChain es
        → IsChain es'
        → last_hash es ≡ last_hash es'
        → es ≡ es'
    unfolding hash_entry
    IsChain-unique [] [] c c' same = refl
    IsChain-unique [] (e ∷ es) c (_, _, hashed, _) same = absurd (not_empty e hashed same)
    IsChain-unique (e ∷ es) [] (_, _, hashed, _) c' same = absurd (not_empty e hashed (sym same))
    IsChain-unique (e ∷ es) (e' ∷ es') (linked, _, hashed, chain) (linked', _, hashed', chain')
          same =
        let (seq, ts, actor, action, detail, prev) =
          no_collision e.seq e'.seq e.ts e'.ts e.actor e'.actor e.action e'.action e.detail
            e'.detail e.prev_hash e'.prev_hash e'.entry_hash (hashed ∙ ap some same) hashed' in
        let same_e : e ≡ e' = λ i. record {
          seq = seq i;
          ts = ts i;
          actor = actor i;
          action = action i;
          detail = detail i;
          prev_hash = prev i;
          entry_hash = same i;
        } in
        let rest = IsChain-unique es es' chain chain' (sym linked ∙ prev ∙ linked') in
        ap₂ (λ x xs. x ∷ xs) same_e rest

    -- If the hash has no collisions and is never the empty text, then two logs that ReadAll
    -- accepts and that end with the same hash have the same entries.
    pub read_all_unique :
        (file file' : LogFile) (es es' : List (Entry f))
        → read_all f file ≡ ok es
        → read_all f file' ≡ ok es'
        → last_hash es ≡ last_hash es'
        → es ≡ es'
    read_all_unique file file' es es' h h' same =
        IsChain-unique es es' (read_all-IsChain file es h) (read_all-IsChain file' es' h') same
