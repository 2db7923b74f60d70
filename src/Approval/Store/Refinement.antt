-- ===== src/Approval/Store/Refinement.antt =====
-- internal/approval/store.go: the approval in memory as the specification of the store.
use Prim.Native.Nat.{min}
use mathlib.Core.Path.{ap₂}
use hermes_security_skills.Base.{
  All, In, List, Result, [], ap, arith, err, false, inl, inr, length, map, ok, refl, some, suc, sym,
  true, ℕ, ◌+◌, ◌<◌, ◌∙◌, ◌∷◌, ◌≡◌, ◌≢◌,
}
use hermes_security_skills.Approval.{
  Approval, ApprovalError, Call, Time, consume_at, count_ok, remaining, run, step,
}
use hermes_security_skills.Approval.Budget.{consumes, run-consumes}
use hermes_security_skills.Approval.Store.{
  Env, File, Query, Record, StoreError, budget_left, commit, consume, consume_in, consumed,
  find_active, load, normalise, not_active, read_locked, records, write_locked,
}
use hermes_security_skills.Approval.Store.Consuming.{
  consume_in-InStep, lookup, to_approval, used_once, wrap,
}
use hermes_security_skills.Approval.Store.Finding.{Covers, find_active-IsBest}
use hermes_security_skills.Approval.Store.Reading.{
  HasDistinctIds, IsFresh, read_locked_iff, read_locked_sound,
}
use hermes_security_skills.Approval.Store.Saving.{commit_fails}
use hermes_security_skills.Base.Int.{+ℤ_parts, pos, ◌+ℤ◌}
use hermes_security_skills.Base.Text.{Text, ◌==◌}
use hermes_security_skills.Base.Text.Laws.{==_iff, ==_refl}

-- The file holds the well-formed records, and `r` is the one with the id.
pub record Holds (file : File) (id : Text) (r : Record) : Type 0 where
  pub all : List Record
  pub reads : load file ≡ ok all
  pub found : lookup id all ≡ some r

-- One Consume on the file, and what the same call does to the approval that the record stands for.
pub record Implements (env : Env) (id : Text) (file : File) (r : Record) : Type 0 where
  pub after : Record
  pub holds : Holds (consume env id file).1 id after
  pub result : (consume env id file).0 ≡ wrap (consume_at env.now (to_approval r)).0
  pub state : to_approval after ≡ (consume_at env.now (to_approval r)).1

consume-eq :
    (env : Env) (id : Text) (file : File) (rs : List Record)
    → read_locked file ≡ ok rs
    → consume env id file ≡ commit env (consume_in env.now id rs) file
unfolding consume consumed
consume-eq env id file rs h = rw h

-- On a disk that takes writes, Consume returns what ConsumeAt returns on the approval with the id,
-- errors included, and the file then holds the approval that ConsumeAt leaves.
pub consume-Implements :
    (env : Env) (id : Text) (file : File) (r : Record)
    → env.writable ≡ true
    → Holds file id r
    → Implements env id file r
unfolding commit write_locked load
consume-Implements env id file r disk h =
    let eq = consume-eq env id file h.all h.reads in
    elim (consume_in-InStep env.now id h.all r h.found) [
      | inl (rs', u, a) ↦
          let done : consume env id file ≡ (ok tt, records rs') = eq ∙ (rw (u.result, disk)) in
          let w = u.well_formed (read_locked_sound file h.all h.reads).0 in
          record {
            after = used_once r;
            holds = record {
              all = rs';
              reads =
                  ap (λ (p : Result StoreError (Unit {0}) × File). read_locked p.1) done
                  ∙ (read_locked_iff rs').1 w;
              found = u.counted;
            };
            result = rw (done, a);
            state = rw a;
          }
      | inr (e, c, a) ↦
          let done : consume env id file ≡ (err (not_active e), file) = eq ∙ (rw c) in
          record {
            after = r;
            holds = record {
              all = h.all;
              reads =
                  ap (λ (p : Result StoreError (Unit {0}) × File). read_locked p.1) done ∙ h.reads;
              found = h.found;
            };
            result = rw (done, a);
            state = rw a;
          }
    ]

-- A Consume that fails, for whatever reason, leaves the file as it was.
pub consume_fails :
    (env : Env) (id : Text) (file : File) (e : StoreError)
    → (consume env id file).0 ≡ err e
    → (consume env id file).1 ≡ file
unfolding consume
consume_fails env id file e h = commit_fails env (consumed env id file) file e h

-- Callers that consume the same id one after the other, in the order in which they take the mutex:
-- the file afterwards and the number of those that succeeded.
abbrev pub succeeded : Result StoreError (Unit {0}) → ℕ
succeeded (ok _) = 1
succeeded (err _) = 0

pub consume_all : List Env → Text → File → File × ℕ
consume_all [] id file = (file, 0)
consume_all (env ∷ envs) id file =
    let (r, file') = consume env id file in
    let (file'', n) = consume_all envs id file' in (file'', succeeded r + n)

abbrev times : List Env → List Call
times [] = []
times (env ∷ envs) = Call.consume env.now ∷ times envs

succeeded-wrap : (x : Result ApprovalError (Unit {0})) → succeeded (wrap x) ≡ count_ok x
succeeded-wrap (ok u) = refl
succeeded-wrap (err e) = refl

pub consume_all-run :
    (envs : List Env) (id : Text) (file : File) (r : Record)
    → All (λ env. env.writable ≡ true) envs
    → Holds file id r
    → (consume_all envs id file).1 ≡ (run (times envs) (to_approval r)).1
unfolding consume_all run step
consume_all-run [] id file r d h = refl
consume_all-run (env ∷ envs) id file r d h =
    let i = consume-Implements env id file r d.0 h in
    ap₂ ◌+◌ (ap succeeded i.result ∙ succeeded-wrap (consume_at env.now (to_approval r)).0) (
      consume_all-run envs id (consume env id file).1 i.after d.1 i.holds
      ∙ ap (λ (a : Approval). (run (times envs) a).1) i.state)

times-consumes : (envs : List Env) → times envs ≡ consumes (map (λ (e : Env). e.now) envs)
times-consumes [] = refl
times-consumes (e ∷ envs) = ap (λ (cs : List Call). Call.consume e.now ∷ cs) (times-consumes envs)

All-now :
    (t : Time) (envs : List Env)
    → All (λ e. e.now < t) envs
    → All (λ x. x < t) (map (λ (e : Env). e.now) envs)
All-now t [] h = tt
All-now t (e ∷ envs) (h, hs) = (h, All-now t envs hs)

length-now : (envs : List Env) → length (map (λ (e : Env). e.now) envs) ≡ length envs
length-now [] = refl
length-now (e ∷ envs) = ap suc (length-now envs)

-- Callers that all come before the expiry of an approval that is not revoked: exactly as many
-- succeed as the smaller of their number and the budget that is left, however they are ordered.
pub consume_all_exact :
    (envs : List Env) (id : Text) (file : File) (r : Record) (left : ℕ)
    → All (λ env. env.writable ≡ true) envs
    → Holds file id r
    → r.is_revoked ≡ false
    → All (λ env. env.now < r.expires_at) envs
    → budget_left r ≡ pos left
    → (consume_all envs id file).1 ≡ min (length envs) left
unfolding to_approval remaining
consume_all_exact envs id file r left d h live early left_is =
    consume_all-run envs id file r d h
    ∙ ap (λ (cs : List Call). (run cs (to_approval r)).1) (times-consumes envs)
    ∙ run-consumes (map (λ (e : Env). e.now) envs) (to_approval r) left live
        (All-now r.expires_at envs early) left_is
    ∙ ap (λ n. min n left) (length-now envs)

not-==_of_IsFresh :
    (q r : Record) (rs : List Record) → IsFresh q.id rs → In r rs → q.id == r.id ≡ false
not-==_of_IsFresh q r [] f i = absurd i
not-==_of_IsFresh q r (s ∷ rs) (ne, f) (inl e) =
    let apart : q.id ≢ r.id = λ x. ne (ap (λ (t : Record). t.id) e ∙ sym x) in
    ground (arith, ==_iff q.id r.id)
not-==_of_IsFresh q r (s ∷ rs) (ne, f) (inr i) = not-==_of_IsFresh q r rs f i

lookup-In : (rs : List Record) (r : Record) → HasDistinctIds rs → In r rs → lookup r.id rs ≡ some r
unfolding lookup
lookup-In [] r d i = absurd i
lookup-In (q ∷ rs) r d (inl e) = rw (e, ==_refl r.id)
lookup-In (q ∷ rs) r (f, d) (inr i) = rw (not-==_of_IsFresh q r rs f i) (lookup-In rs r d i)

granted :
    (now : Time) (q : Query) (r : Record)
    → Covers now q r
    → consume_at now (to_approval r) ≡ (ok tt, to_approval (record r { used = r.used +ℤ pos 1 }))
unfolding consume_at to_approval
granted now q r c = ground (arith, c.budget, +ℤ_parts r.used (pos 1))

-- What FindActive finds can be consumed: with no change of the file in between, on a disk that
-- takes writes, the Consume of the found id succeeds and uses one request of that approval.
pub find_active-consume :
    (env : Env) (q : Query) (file : File) (r : Record)
    → env.writable ≡ true
    → find_active env q file ≡ ok (some r)
    → ((consume env r.id file).0 ≡ ok tt)
      × ((after : Record) × Holds (consume env r.id file).1 r.id after
          × (to_approval after ≡ to_approval (record r { used = r.used +ℤ pos 1 })))
unfolding load
find_active-consume env q file r disk h =
    let (rs, reads, listed, covering, least) = find_active-IsBest env q file r h in
    let w = (read_locked_sound file rs reads).0 in
    let i =
      consume-Implements env r.id file r disk
        (record { all = rs; reads = reads; found = lookup-In rs r w.distinct listed }) in
    let done = granted env.now (normalise q) r covering in
    (
      i.result ∙ ap (λ (p : Result ApprovalError (Unit {0}) × Approval). wrap p.0) done,
      (
        i.after,
        i.holds,
        i.state ∙ ap (λ (p : Result ApprovalError (Unit {0}) × Approval). p.1) done,
      ),
    )
