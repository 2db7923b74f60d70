-- ===== src/Approval/Store/Tests.antt =====
-- The theorems on the approval store at concrete files.
use Prim.Native.Nat.{min}
use mathlib.Core.Bool.{false≢true}
use hermes_security_skills.Base.{
  List, [], any, arith, false, keep, length, none, ok, refl, some, true, ◌++◌, ◌↔◌, ◌∷◌, ◌≡◌, ◌≢◌,
}
use hermes_security_skills.Approval.Store.{
  Env, File, Query, Record, absent, active, active_at, better, budget_left, check_record,
  check_records, commit, complete, consume, consume_in, consume_record, consumed, count_revoked,
  covers, find_active, find_from, has_id, load, read_locked, records, revoke_case, revoke_one,
  revoke_read, save, saved, validate_record, write_locked,
}
use hermes_security_skills.Approval.Store.Consuming.{lookup}
use hermes_security_skills.Approval.Store.Finding.{IsFound, find_active-IsFound}
use hermes_security_skills.Approval.Store.KillSwitch.{kill_switch}
use hermes_security_skills.Approval.Store.Reading.{IsWellFormed, read_locked_iff}
use hermes_security_skills.Approval.Store.Refinement.{
  Holds, Implements, consume-Implements, consume_all, consume_all_exact,
}
use hermes_security_skills.Approval.Store.Saving.{load-save, save_poisons}
use hermes_security_skills.Base.Int.{pos, ◌+ℤ◌, ◌-ℤ◌}
use hermes_security_skills.Base.Text.{codes, has_prefix, to_upper, trim_space, ◌==◌}
use hermes_security_skills.Base.Text.Laws.{==_iff}

store : Unit {0}
unfolding save saved complete commit write_locked load read_locked check_records check_record
    validate_record has_id revoke_case revoke_read revoke_one count_revoked active active_at
    find_active find_from covers better consume consumed consume_in consume_record to_upper
    trim_space has_prefix any keep ◌==◌ ◌+ℤ◌ ◌-ℤ◌
store = tt

abbrev grant : Record
grant = record {
  id = codes "r1";
  case_id = codes "case-1";
  capability = codes "request_replay";
  host = codes "example.com";
  method = codes "GET";
  path = codes "*";
  max_requests = pos 2;
  account_ref = [];
  expires_at = 100;
  risk = codes "low";
  created_at = 1;
  used = pos 0;
  is_revoked = false;
  revoked_at = 0;
  revoke_reason = [];
}

abbrev env : Env
env = record { now = 10; fresh_id = some (codes "f0"); writable = true }

abbrev file : File
file = records (grant ∷ record grant { id = codes "r2"; case_id = codes "case-2" } ∷ [])

abbrev query : Query
query = record {
  capability = codes "request_replay";
  case_id = codes "case-1";
  host = codes "example.com";
  method = codes " get";
  path = [];
}

file_reads :
    load file ≡ ok (grant ∷ record grant { id = codes "r2"; case_id = codes "case-2" } ∷ [])
unfolding store
file_reads = refl

found_grant : find_active env query file ≡ ok (some grant)
unfolding store
found_grant = refl

revoked_file : File
unfolding store
revoked_file = (revoke_case env (codes "case-1") [] file).1

revoked_one : revoke_case env (codes "case-1") [] file ≡ (ok 1, revoked_file)
unfolding store revoked_file
revoked_one = refl

read_locked_iff_example :
    (read_locked (records (grant ∷ [])) ≡ ok (grant ∷ [])) ↔ IsWellFormed (grant ∷ [])
read_locked_iff_example = read_locked_iff (grant ∷ [])

empty_saved : save env grant absent ≡ (ok tt, records (grant ∷ []))
unfolding store
empty_saved = refl

load-save_example :
    (old : List Record) × (stored : Record) × (load absent ≡ ok old)
    × (complete env grant ≡ ok stored)
    × (load (records (grant ∷ [])) ≡ ok (old ++ stored ∷ []))
load-save_example = load-save env grant absent (records (grant ∷ [])) (omega arith) empty_saved

abbrev overused : Record
overused = record grant { used = pos 5 }

overused_saved : save env overused absent ≡ (ok tt, records (overused ∷ []))
unfolding store
overused_saved = refl

save_poisons_example : load (records (overused ∷ [])) ≢ ok (overused ∷ [])
save_poisons_example =
    save_poisons env overused absent (records (overused ∷ [])) (overused ∷ [])
      (λ h. absurd (omega arith)) overused_saved

kill_switch_example :
    (active env (codes "case-1") revoked_file ≡ ok [])
    × (find_active env query revoked_file ≡ ok none)
    × (revoke_case env (codes "case-1") (codes "again") revoked_file ≡ (ok 0, revoked_file))
kill_switch_example =
    kill_switch env (codes "case-1") [] 1 file revoked_file env query (codes "again") revoked_one
      refl

cases_differ : codes "case-2" ≢ codes "case-1"
unfolding ◌==◌
cases_differ e = false≢true ((==_iff (codes "case-2") (codes "case-1")).1 e)

Holds-grant : Holds file (codes "r1") grant
unfolding store lookup
Holds-grant = record { all = _; reads = file_reads; found = refl }

consume-Implements_example : Implements env (codes "r1") file grant
consume-Implements_example = consume-Implements env (codes "r1") file grant refl Holds-grant

two_left_in_grant : budget_left grant ≡ pos 2
unfolding store
two_left_in_grant = refl

consume_all_exact_example :
    (consume_all (env ∷ env ∷ env ∷ []) (codes "r1") file).1 ≡ min (length (env ∷ env ∷ env ∷ [])) 2
consume_all_exact_example =
    consume_all_exact (env ∷ env ∷ env ∷ []) (codes "r1") file grant 2 (refl, (refl, (refl, tt)))
      Holds-grant refl (omega arith) two_left_in_grant

find_active-IsFound_example : IsFound env query file (find_active env query file)
find_active-IsFound_example = find_active-IsFound env query file
