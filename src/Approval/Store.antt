-- ===== src/Approval/Store.antt =====
-- internal/approval/store.go: the approvals of all cases, kept in one JSON file. The file is the
-- state: the processes and goroutines that share it are sequences of these operations. `Env` holds
-- what an operation takes from outside: the clock, the random id, and whether the disk takes a write.
-- JSON itself is not modelled: a file that parses is its list of records.
pub mod Reading
pub mod Saving
pub mod Revoking
pub mod KillSwitch
pub mod Finding
pub mod Consuming
pub mod Refinement
mod Tests
use hermes_security_skills.Base.{
  Bool, List, Option, Result, [], any, deny_if, eqb, err, false, if◌then◌else◌, keep, ltb, map,
  none, not, ok, some, true, ℕ, ◌&&◌, ◌++◌, ◌+◌, ◌>>=◌, ◌>>◌, ◌||◌, ◌∷◌,
}
use hermes_security_skills.Approval.{ApprovalError, Time, exhausted, expired, revoked}
use hermes_security_skills.Base.Int.{lebℤ, ltbℤ, pos, ℤ, ◌+ℤ◌, ◌-ℤ◌}
use hermes_security_skills.Base.Text.{
  Text, codes, has_prefix, is_blank, is_empty, to_upper, trim_space, ◌==◌,
}

pub record Record : Type 0 where
  pub id : Text
  pub case_id : Text
  pub capability : Text
  pub host : Text
  pub method : Text
  pub path : Text
  pub max_requests : ℤ
  pub account_ref : Text
  pub expires_at : Time
  pub risk : Text
  pub created_at : Time
  pub used : ℤ
  pub is_revoked : Bool
  pub revoked_at : Time
  pub revoke_reason : Text

abbrev pub path_any : Text
path_any = codes "*"

pub data StoreError : Type 0 where
  missing : Text → StoreError
  bad_path bad_max_requests no_expiry : StoreError
  duplicate_id id_exists not_found used_out_of_range : StoreError
  unreadable_store corrupt_store write_failed no_random : StoreError
  not_active : ApprovalError → StoreError

unfoldable pub validate_record : Record → Result StoreError (Unit {0})
validate_record r = do
  deny_if (is_blank r.id) (missing (codes "id"))
  deny_if (is_blank r.case_id) (missing (codes "case_id"))
  deny_if (is_blank r.capability) (missing (codes "capability"))
  deny_if (is_blank r.host) (missing (codes "host"))
  deny_if (is_blank r.method) (missing (codes "method"))
  deny_if (is_blank r.path) (missing (codes "path"))
  deny_if (not (has_prefix r.path (codes "/")) && not (r.path == path_any)) bad_path
  deny_if (lebℤ r.max_requests (pos 0)) bad_max_requests
  deny_if (eqb r.expires_at 0) no_expiry
  deny_if (is_blank r.risk) (missing (codes "risk"))

unfoldable pub active_at : Record → Time → Bool
active_at r now = not r.is_revoked && ltb now r.expires_at && ltbℤ r.used r.max_requests

pub data File : Type 0 where
  absent unreadable corrupt : File
  records : List Record → File

pub record Env : Type 0 where
  pub now : Time
  pub fresh_id : Option Text
  pub writable : Bool

unfoldable pub has_id : Text → List Record → Bool
has_id id [] = false
has_id id (r ∷ rs) = r.id == id || has_id id rs

-- One round of the loop of readLocked; `seen` holds the ids of the rounds before.
unfoldable pub check_record : List Text → Record → Result StoreError (Unit {0})
check_record seen r = do
  deny_if (is_empty r.id) (missing (codes "id"))
  deny_if (any (λ s. s == r.id) seen) duplicate_id
  validate_record r
  deny_if (ltbℤ r.used (pos 0) || ltbℤ r.max_requests r.used) used_out_of_range

unfoldable pub check_records : List Text → List Record → Result StoreError (Unit {0})
check_records seen [] = ok tt
check_records seen (r ∷ rs) = do check_record seen r; check_records (r.id ∷ seen) rs

unfoldable pub read_locked : File → Result StoreError (List Record)
read_locked absent = ok []
read_locked unreadable = err unreadable_store
read_locked corrupt = err corrupt_store
read_locked (records rs) = do check_records [] rs; ok rs

-- The temporary file and the rename: a write that fails leaves the old file.
unfoldable pub write_locked : Env → List Record → File → Result StoreError (Unit {0}) × File
write_locked env rs file = if env.writable then (ok tt, records rs) else (err write_failed, file)

-- The new contents are written, unless finding them failed.
unfoldable pub commit :
    Env → Result StoreError (List Record) → File → Result StoreError (Unit {0}) × File
commit env (ok rs) file = write_locked env rs file
commit env (err e) file = (err e, file)

abbrev pub id_or_fresh : Env → Text → Result StoreError Text
id_or_fresh env id =
    if is_blank id then elim env.fresh_id [ none ↦ err no_random | some f ↦ ok f ] else ok id

-- The fields that Save fills in.
unfoldable pub complete : Env → Record → Result StoreError Record
complete env r = do
  id ← id_or_fresh env r.id
  ok (record r {
    id = id;
    created_at = if eqb r.created_at 0 then env.now else r.created_at;
    method = to_upper (trim_space r.method);
  })

unfoldable pub saved : Env → Record → File → Result StoreError (List Record)
saved env r file = do
  r' ← complete env r
  validate_record r'
  rs ← read_locked file
  deny_if (has_id r'.id rs) id_exists
  ok (rs ++ r' ∷ [])

unfoldable pub save : Env → Record → File → Result StoreError (Unit {0}) × File
save env r file = commit env (saved env r file) file

unfoldable pub load : File → Result StoreError (List Record)
load file = read_locked file

-- One round of the loop of RevokeCase.
unfoldable pub revoke_one : Time → Text → Text → Record → Record
revoke_one now case_id reason r =
    if r.case_id == case_id && not r.is_revoked
    then record r { is_revoked = true; revoked_at = now; revoke_reason = reason }
    else r

unfoldable pub count_revoked : Text → List Record → ℕ
count_revoked case_id [] = 0
count_revoked case_id (r ∷ rs) =
    (if r.case_id == case_id && not r.is_revoked then 1 else 0) + count_revoked case_id rs

abbrev pub reason_or_default : Text → Text
reason_or_default reason = if is_blank reason then codes "revoked" else reason

-- The count, and the file; nothing is written where nothing changed.
unfoldable pub revoke_read : Env → Text → Text → List Record → File → Result StoreError ℕ × File
revoke_read env case_id reason rs file =
    let n = count_revoked case_id rs in
    let rs' = map (revoke_one env.now case_id reason) rs in
    if eqb n 0
    then (ok 0, file)
    else if env.writable
    then (ok n, records rs')
    else (err write_failed, file)

unfoldable pub revoke_case : Env → Text → Text → File → Result StoreError ℕ × File
revoke_case env case_id reason file =
    if is_blank case_id then (err (missing (codes "case_id")), file) else elim (read_locked file) [
      | err e ↦ (err e, file)
      | ok rs ↦ revoke_read env case_id (reason_or_default reason) rs file
    ]

unfoldable pub active : Env → Text → File → Result StoreError (List Record)
active env case_id file = do
  deny_if (is_blank case_id) (missing (codes "case_id"))
  rs ← read_locked file
  ok (keep (λ r. r.case_id == case_id && active_at r env.now) rs)

-- What a caller asks for; FindActive normalises the method and the empty path.
pub record Query : Type 0 where
  pub capability : Text
  pub case_id : Text
  pub host : Text
  pub method : Text
  pub path : Text

abbrev pub normalise : Query → Query
normalise q = record q {
  method = to_upper (trim_space q.method);
  path = if is_empty q.path then codes "/" else q.path;
}

-- The tests of one round of the loop of FindActive.
unfoldable pub covers : Time → Query → Record → Bool
covers now q r =
    active_at r now
    && not (
        not (r.case_id == q.case_id)
        || not (r.capability == q.capability)
        || not (r.host == q.host)
        || not (r.method == q.method))
    && not (not (r.path == path_any) && not (r.path == q.path))

abbrev pub budget_left : Record → ℤ
budget_left r = r.max_requests -ℤ r.used

unfoldable pub better : Record → Option Record → Bool
better r none = true
better r (some b) = ltbℤ (budget_left r) (budget_left b)

unfoldable pub find_from : Time → Query → Option Record → List Record → Option Record
find_from now q best [] = best
find_from now q best (r ∷ rs) =
    find_from now q (if covers now q r && better r best then some r else best) rs

unfoldable pub find_active : Env → Query → File → Result StoreError (Option Record)
find_active env q file = do rs ← read_locked file; ok (find_from env.now (normalise q) none rs)

-- The switch of Consume on the record with the id.
unfoldable pub consume_record : Time → Record → Result StoreError Record
consume_record now r =
    if r.is_revoked
    then err (not_active revoked)
    else if not (ltb now r.expires_at)
    then err (not_active expired)
    else if lebℤ r.max_requests r.used
    then err (not_active exhausted)
    else ok (record r { used = r.used +ℤ pos 1 })

unfoldable pub consume_in : Time → Text → List Record → Result StoreError (List Record)
consume_in now id [] = err not_found
consume_in now id (r ∷ rs) =
    let rest = (do rs' ← consume_in now id rs; ok (r ∷ rs')) in
    let here = (do r' ← consume_record now r; ok (r' ∷ rs)) in
    if not (r.id == id) then rest else here

unfoldable pub consumed : Env → Text → File → Result StoreError (List Record)
consumed env id file = do rs ← read_locked file; consume_in env.now id rs

unfoldable pub consume : Env → Text → File → Result StoreError (Unit {0}) × File
consume env id file = commit env (consumed env id file) file
