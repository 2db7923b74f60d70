-- ===== src/Approval/Store/KillSwitch.antt =====
-- internal/approval/store.go: RevokeCase as the callers of Active, FindActive and Consume see it.
use hermes_security_skills.Base.{
  Bool-cases, List, Option, Result, Result-cases, [], ap, arith, eqb, eqb_iff, false, inl, inr, map,
  none, ok, sym, ℕ, ◌∙◌, ◌≡◌, ◌≢◌,
}
use hermes_security_skills.Approval.Store.{
  Env, File, Query, Record, StoreError, active, count_revoked, find_active, normalise, read_locked,
  reason_or_default, records, revoke_case, revoke_one, revoke_read,
}
use hermes_security_skills.Approval.Store.Reading.{read_locked_iff, read_locked_sound}
use hermes_security_skills.Approval.Store.Revoking.{
  count_revoked-AllRevoked, find_from-AllRevoked, keep-AllRevoked, keep_other, revoked_records,
  revoked_records-AllRevoked, revoked_records-IsWellFormed, revoked_records_none,
}
use hermes_security_skills.Base.Text.{Text, is_blank}

-- What a successful RevokeCase has done to the records.
pub record IsRevoked (env : Env) (case_id reason : Text) (n : ℕ) (file file' : File) : Type 0 where
  pub before : List Record
  pub was_read : read_locked file ≡ ok before
  pub reads :
      read_locked file' ≡ ok (revoked_records env.now case_id (reason_or_default reason) before)
  pub counted : n ≡ count_revoked case_id before

revoke_read-IsRevoked :
    (env : Env) (case_id reason : Text) (rs : List Record) (n : ℕ) (file file' : File)
    → read_locked file ≡ ok rs
    → revoke_read env case_id reason rs file ≡ (ok n, file')
    → (n ≡ count_revoked case_id rs)
      × (read_locked file' ≡ ok (revoked_records env.now case_id reason rs))
unfolding revoke_read
revoke_read-IsRevoked env case_id reason rs n file file' was_read h =
    elim (Bool-cases (eqb (count_revoked case_id rs) 0)) [
      | inl zero_changed ↦
          let none_changed = (eqb_iff (count_revoked case_id rs) 0).0 zero_changed in
          let same : file ≡ file' = ground arith in
          (
            ground arith,
            ap read_locked (sym same)
                ∙ was_read
                ∙ ap (λ (l : List Record). let r : Result StoreError (List Record) = ok l in r)
                    (sym (revoked_records_none env.now case_id reason rs none_changed)),
          )
      | inr changed ↦
          let same : records (map (revoke_one env.now case_id reason) rs) ≡ file' = ground arith in
          let w = (read_locked_sound file rs was_read).0 in
          (
            ground arith,
            ap read_locked (sym same)
                ∙ (unfold revoked_records in
                    (read_locked_iff (revoked_records env.now case_id reason rs)).1
                      (revoked_records-IsWellFormed env.now case_id reason rs w)),
          )
    ]

pub revoke_case-IsRevoked :
    (env : Env) (case_id reason : Text) (n : ℕ) (file file' : File)
    → revoke_case env case_id reason file ≡ (ok n, file')
    → IsRevoked env case_id reason n file file'
unfolding revoke_case
revoke_case-IsRevoked env case_id reason n file file' h = elim (Result-cases (read_locked file)) [
  | inl (rs, was_read) ↦
      let (counted, reads) =
        revoke_read-IsRevoked env case_id (reason_or_default reason) rs n file file' was_read
          (ground arith) in
      record { before = rs; was_read = was_read; reads = reads; counted = counted }
  | inr (e, failed) ↦ absurd (ground arith)
]

-- After a RevokeCase that succeeds, at every later time: no approval of the case is active, none is
-- found by a query for the case, and a second RevokeCase counts 0 and leaves the file as it is.
pub kill_switch :
    (env : Env) (case_id reason : Text) (n : ℕ) (file file' : File) (later : Env) (q : Query)
    (again : Text)
    → revoke_case env case_id reason file ≡ (ok n, file')
    → q.case_id ≡ case_id
    → (active later case_id file' ≡ ok [])
      × (find_active later q file' ≡ ok none)
      × (revoke_case later case_id again file' ≡ (ok 0, file'))
unfolding active find_active revoke_case revoke_read
kill_switch env case_id reason n file file' later q again h same =
    let k = revoke_case-IsRevoked env case_id reason n file file' h in
    let t = env.now in
    let r = reason_or_default reason in
    let all_revoked = revoked_records-AllRevoked t case_id r k.before in
    let not_blank : is_blank case_id ≡ false = ground arith in
    (
      rw (not_blank, k.reads)
          (ap (λ (l : List Record). let x : Result StoreError (List Record) = ok l in x)
            (keep-AllRevoked t case_id r later.now _ all_revoked)),
      rw k.reads (
          ap (λ (o : Option Record). let x : Result StoreError (Option Record) = ok o in x)
            (find_from-AllRevoked t case_id r later.now (normalise q) _ same all_revoked)),
      rw (not_blank, k.reads) (rw (count_revoked-AllRevoked t case_id r _ all_revoked)),
    )

-- The other cases keep their active approvals.
pub revoke_case_other :
    (env : Env) (case_id reason : Text) (n : ℕ) (file file' : File)
    → revoke_case env case_id reason file ≡ (ok n, file')
    → (later : Env) (other : Text) → other ≢ case_id
    → active later other file' ≡ active later other file
unfolding active
revoke_case_other env case_id reason n file file' h later other ne =
    let k = revoke_case-IsRevoked env case_id reason n file file' h in
    rw (k.reads, k.was_read)
      (rw (keep_other env.now case_id (reason_or_default reason) later.now other k.before ne))
