-- ===== src/Approval/Store/Saving.antt =====
-- internal/approval/store.go: Save, and Load behind it.
use hermes_security_skills.Base.{
  >>=-eq-ok, All, List, Result, [], ap, arith, err, false, guard-eq-ok, ok, ok-injective, refl, sym,
  ||-eq-false, ◌++◌, ◌↔◌, ◌∙◌, ◌∷◌, ◌≡◌, ◌≢◌,
}
use hermes_security_skills.Approval.{new}
use hermes_security_skills.Approval.Store.{
  Env, File, Record, StoreError, commit, complete, has_id, id_exists, id_or_fresh, load,
  read_locked, records, save, saved, validate_record, write_locked,
}
use hermes_security_skills.Approval.Store.Reading.{
  HasDistinctIds, InRange, IsComplete, IsFresh, IsWellFormed, read_locked_iff, read_locked_records,
  read_locked_sound, validate_record_iff,
}
use hermes_security_skills.Base.Text.{Text, ◌==◌}
use hermes_security_skills.Base.Text.Laws.{==_iff}
use hermes_security_skills.Proxy.Engine.Create.{fresh}

has_id-eq-false : (id : Text) (rs : List Record) → (has_id id rs ≡ false) ↔ IsFresh id rs
unfolding has_id
has_id-eq-false id [] = (λ h. tt, λ h. refl)
has_id-eq-false id (r ∷ rs) = (
  λ h.
      let (here, later) = ||-eq-false (r.id == id) (has_id id rs) h in
      (λ e. ground (arith, ==_iff r.id id), (has_id-eq-false id rs).0 later),
  λ (ne, fresh). ground (arith, ==_iff r.id id, (has_id-eq-false id rs).1 fresh),
)

IsFresh-append :
    (id : Text) (rs : List Record) (r : Record)
    → IsFresh id rs
    → r.id ≢ id
    → IsFresh id (rs ++ r ∷ [])
IsFresh-append id [] r f ne = (ne, tt)
IsFresh-append id (q ∷ rs) r (h, f) ne = (h, IsFresh-append id rs r f ne)

HasDistinctIds-append :
    (rs : List Record) (r : Record)
    → HasDistinctIds rs
    → IsFresh r.id rs
    → HasDistinctIds (rs ++ r ∷ [])
HasDistinctIds-append [] r d f = (tt, tt)
HasDistinctIds-append (q ∷ rs) r (h, d) (ne, f) =
    (IsFresh-append q.id rs r h (λ e. ne (sym e)), HasDistinctIds-append rs r d f)

All-append {ℓ κ} :
    {A : Type ℓ} (P : A → Type κ) (xs : List A) (y : A) → All P xs → P y → All P (xs ++ y ∷ [])
All-append P [] y h p = (p, tt)
All-append P (x ∷ xs) y (q, h) p = (q, All-append P xs y h p)

All-last {ℓ κ} : {A : Type ℓ} (P : A → Type κ) (xs : List A) (y : A) → All P (xs ++ y ∷ []) → P y
All-last P [] y h = h.0
All-last P (x ∷ xs) y h = All-last P xs y h.1

IsWellFormed-append :
    (rs : List Record) (r : Record)
    → IsWellFormed rs
    → IsComplete r
    → InRange r
    → IsFresh r.id rs
    → IsWellFormed (rs ++ r ∷ [])
IsWellFormed-append rs r w c i f = record {
  complete = All-append IsComplete rs r w.complete c;
  in_range = All-append InRange rs r w.in_range i;
  distinct = HasDistinctIds-append rs r w.distinct f;
}

-- What a successful Save has done.
pub record IsSaved (env : Env) (r : Record) (file file' : File) : Type 0 where
  pub old : List Record
  pub stored : Record
  pub was_read : read_locked file ≡ ok old
  pub filled_in : complete env r ≡ ok stored
  pub is_complete : IsComplete stored
  pub is_fresh : IsFresh stored.id old
  pub written : file' ≡ records (old ++ stored ∷ [])

commit-eq-ok :
    (env : Env) (m : Result StoreError (List Record)) (file file' : File)
    → commit env m file ≡ (ok tt, file')
    → (rs : List Record) × (m ≡ ok rs) × (file' ≡ records rs)
unfolding commit write_locked
commit-eq-ok env (ok rs) file file' h = (rs, refl, ground arith)
commit-eq-ok env (err e) file file' h = absurd (ground arith)

-- An operation that ends in an error leaves the file as it was.
pub commit_fails :
    (env : Env) (m : Result StoreError (List Record)) (file : File) (e : StoreError)
    → (commit env m file).0 ≡ err e
    → (commit env m file).1 ≡ file
unfolding commit write_locked
commit_fails env (ok rs) file e h = ground arith
commit_fails env (err d) file e h = refl

-- A Save that succeeds has read the old records, has filled in the id, the time of creation and
-- the upper-case method, has found the result complete and its id new, and has written the old
-- records with the new one behind them.
pub save-IsSaved :
    (env : Env) (r : Record) (file file' : File)
    → save env r file ≡ (ok tt, file')
    → IsSaved env r file file'
unfolding save saved
save-IsSaved env r file file' h =
    let (new, made, written) = commit-eq-ok env (saved env r file) file file' h in
    let (r', filled_in, h₁) = >>=-eq-ok (complete env r) _ made in
    let (u, valid, h₂) = >>=-eq-ok (validate_record r') _ h₁ in
    let (rs, was_read, h₃) = >>=-eq-ok (read_locked file) _ h₂ in
    let (fresh, e) = guard-eq-ok (has_id r'.id rs) id_exists (λ _. ok (rs ++ r' ∷ [])) h₃ in
    record {
      old = rs;
      stored = r';
      was_read = was_read;
      filled_in = filled_in;
      is_complete = (validate_record_iff r').0 valid;
      is_fresh = (has_id-eq-false r'.id rs).0 fresh;
      written = rw (ok-injective e) written;
    }

complete-used :
    (env : Env) (r r' : Record)
    → complete env r ≡ ok r'
    → (r'.used ≡ r.used) × (r'.max_requests ≡ r.max_requests)
unfolding complete
complete-used env r r' h =
    let (id, made, e) = >>=-eq-ok (id_or_fresh env r.id) _ h in
    (
      ap (λ (q : Record). q.used) (sym (ok-injective e)),
      ap (λ (q : Record). q.max_requests) (sym (ok-injective e)),
    )

InRange-complete : (env : Env) (r r' : Record) → complete env r ≡ ok r' → InRange r ↔ InRange r'
InRange-complete env r r' h =
    let (u, m) = complete-used env r r' h in
    (λ (i : InRange r). rw (u, m) i, λ (i : InRange r'). rw (← u, ← m) i)

-- After a Save that succeeds, Load gives back the old records with the new one behind them, if the
-- record's used requests lie between 0 and its budget.
pub load-save :
    (env : Env) (r : Record) (file file' : File)
    → InRange r
    → save env r file ≡ (ok tt, file')
    → (old : List Record) × (stored : Record) × (load file ≡ ok old)
      × (complete env r ≡ ok stored)
      × (load file' ≡ ok (old ++ stored ∷ []))
unfolding load
load-save env r file file' i h =
    let s = save-IsSaved env r file file' h in
    let w = (read_locked_sound file s.old s.was_read).0 in
    let i' = (InRange-complete env r s.stored s.filled_in).0 i in
    (
      s.old,
      s.stored,
      s.was_read,
      s.filled_in,
      ap read_locked s.written
          ∙ ((read_locked_iff (s.old ++ s.stored ∷ [])).1
              (IsWellFormed-append s.old s.stored w s.is_complete i' s.is_fresh)),
    )

-- Save does not test the range of `used`: after a Save of a record whose used requests are out of
-- range, the store cannot be read any more.
pub save_poisons :
    (env : Env) (r : Record) (file file' : File) (ls : List Record)
    → ¬ (InRange r)
    → save env r file ≡ (ok tt, file')
    → load file' ≢ ok ls
unfolding load
save_poisons env r file file' ls out h e =
    let s = save-IsSaved env r file file' h in
    let read = sym (ap read_locked s.written) ∙ e in
    let w = (read_locked_records (s.old ++ s.stored ∷ []) ls read).0 in
    out
      ((InRange-complete env r s.stored s.filled_in).1 (All-last InRange s.old s.stored w.in_range))
