-- ===== src/Approval/Store/Reading.antt =====
-- internal/approval/store.go: readLocked and the stores that it accepts.
use hermes_security_skills.Base.{
  >>=-eq-ok, All, Bool, List, [], any, arith, deny_if, false, inl, inr, ok, ok-injective, refl, sym,
  true, ◌<◌, ◌↔◌, ◌∷◌, ◌≡◌, ◌≢◌, ◌⊎◌,
}
use hermes_security_skills.Approval.{new}
use hermes_security_skills.Approval.Store.{
  File, Record, StoreError, absent, check_record, check_records, complete, corrupt, path_any,
  read_locked, records, unreadable, validate_record,
}
use hermes_security_skills.Base.Int.{pos, ◌≤ℤ◌}
use hermes_security_skills.Base.Text.{Text, codes, has_prefix, is_blank, ◌==◌}
use hermes_security_skills.Base.Text.Laws.{==_iff, not-empty_of_not-blank}
use hermes_security_skills.Proxy.Engine.Create.{fresh}

-- What validateRecord asks of a record, and the range of `used` that only readLocked asks for.
pub record IsComplete (r : Record) : Type 0 where
  pub id : is_blank r.id ≡ false
  pub case_id : is_blank r.case_id ≡ false
  pub capability : is_blank r.capability ≡ false
  pub host : is_blank r.host ≡ false
  pub method : is_blank r.method ≡ false
  pub path : is_blank r.path ≡ false
  pub rooted : (has_prefix r.path (codes "/") ≡ true) ⊎ (r.path ≡ path_any)
  pub budget : pos 1 ≤ℤ r.max_requests
  pub expiry : 0 < r.expires_at
  pub risk : is_blank r.risk ≡ false

abbrev pub InRange : Record → Type 0
InRange r = (pos 0 ≤ℤ r.used) × (r.used ≤ℤ r.max_requests)

abbrev pub IsFresh : Text → List Record → Type 0
IsFresh id rs = All (λ r. r.id ≢ id) rs

abbrev pub HasDistinctIds : List Record → Type 0
HasDistinctIds [] = Unit
HasDistinctIds (r ∷ rs) = IsFresh r.id rs × HasDistinctIds rs

pub record IsWellFormed (rs : List Record) : Type 0 where
  pub complete : All IsComplete rs
  pub in_range : All InRange rs
  pub distinct : HasDistinctIds rs

pub deny_if-eq-ok : (b : Bool) (e : StoreError) → deny_if b e ≡ ok tt → b ≡ false
deny_if-eq-ok true e h = cc
deny_if-eq-ok false e h = refl

pub validate_record_iff : (r : Record) → (validate_record r ≡ ok tt) ↔ IsComplete r
unfolding validate_record
validate_record_iff r =
    (λ h. ground (arith, ==_iff r.path path_any), λ c. ground (arith, ==_iff r.path path_any))

-- The ids seen before do not hold the record's.
abbrev IsNew : List Text → Record → Type 0
IsNew seen r = any (λ s. s == r.id) seen ≡ false

check_record_iff :
    (seen : List Text) (r : Record)
    → (check_record seen r ≡ ok tt) ↔ (IsComplete r × InRange r × IsNew seen r)
unfolding check_record
check_record_iff seen r = (
  λ h.
      let validated : validate_record r ≡ ok tt = ground arith in
      ((validate_record_iff r).0 validated, (ground arith, ground arith), ground arith),
  λ (c, (low, high), new).
      ground (arith, not-empty_of_not-blank r.id c.id, (validate_record_iff r).1 c),
)

-- No id of the list was seen before.
abbrev AllNew : List Text → List Record → Type 0
AllNew seen rs = All (IsNew seen) rs

IsNew-cons :
    (id : Text) (seen : List Text) (r : Record) → IsNew (id ∷ seen) r ↔ (IsNew seen r × (r.id ≢ id))
unfolding any
IsNew-cons id seen r = (
  λ h. (ground arith, λ e. ground (arith, ==_iff id r.id)),
  λ (n, ne). ground (arith, ==_iff id r.id, λ (e : id ≡ r.id). ne (sym e)),
)

AllNew-cons :
    (id : Text) (seen : List Text) (rs : List Record)
    → AllNew (id ∷ seen) rs ↔ (AllNew seen rs × IsFresh id rs)
AllNew-cons id seen [] = (λ h. (tt, tt), λ h. tt)
AllNew-cons id seen (r ∷ rs) = (
  λ (h, hs).
      let (n, f) = (IsNew-cons id seen r).0 h in
      let (ns, fs) = (AllNew-cons id seen rs).0 hs in ((n, ns), (f, fs)),
  λ ((n, ns), (f, fs)). ((IsNew-cons id seen r).1 (n, f), (AllNew-cons id seen rs).1 (ns, fs)),
)

check_records_sound :
    (seen : List Text) (rs : List Record)
    → check_records seen rs ≡ ok tt
    → IsWellFormed rs × AllNew seen rs
unfolding check_records
check_records_sound seen [] h = (record { complete = tt; in_range = tt; distinct = tt }, tt)
check_records_sound seen (r ∷ rs) h =
    let (u, here, rest) = >>=-eq-ok (check_record seen r) _ h in
    let (complete, range, new) = (check_record_iff seen r).0 here in
    let (w, all_new) = check_records_sound (r.id ∷ seen) rs rest in
    let (later, fresh) = (AllNew-cons r.id seen rs).0 all_new in
    (
      record {
        complete = (complete, w.complete);
        in_range = (range, w.in_range);
        distinct = (fresh, w.distinct);
      },
      (new, later),
    )

check_records_complete :
    (seen : List Text) (rs : List Record)
    → IsWellFormed rs
    → AllNew seen rs
    → check_records seen rs ≡ ok tt
unfolding check_records
check_records_complete seen [] w n = refl
check_records_complete seen (r ∷ rs) w n =
    rw ((check_record_iff seen r).1 (w.complete.0, w.in_range.0, n.0)) (
      check_records_complete (r.id ∷ seen) rs
        (record { complete = w.complete.1; in_range = w.in_range.1; distinct = w.distinct.1 })
        ((AllNew-cons r.id seen rs).1 (n.1, w.distinct.0)))

AllNew-nil : (rs : List Record) → AllNew [] rs
unfolding any
AllNew-nil [] = tt
AllNew-nil (r ∷ rs) = (refl, AllNew-nil rs)

-- A file of records is read, as its records, exactly when these are well-formed: every required
-- field is filled in, the used requests lie between 0 and the budget, and no id stands twice.
pub read_locked_iff : (rs : List Record) → (read_locked (records rs) ≡ ok rs) ↔ IsWellFormed rs
unfolding read_locked
read_locked_iff rs = (
  λ h.
      let (u, checked, e) = >>=-eq-ok (check_records [] rs) _ h in
      (check_records_sound [] rs checked).0,
  λ w. rw (check_records_complete [] rs w (AllNew-nil rs)),
)

-- What was read is well-formed, and it is all that the file holds.
pub read_locked_sound :
    (file : File) (rs : List Record)
    → read_locked file ≡ ok rs
    → IsWellFormed rs × ((file ≡ records rs) ⊎ ((file ≡ absent) × (rs ≡ [])))
unfolding read_locked
read_locked_sound absent rs h =
    rw (← ok-injective h) (record { complete = tt; in_range = tt; distinct = tt }, inr (refl, refl))
read_locked_sound unreadable rs h = cc
read_locked_sound corrupt rs h = cc
read_locked_sound (records stored) rs h =
    let (u, checked, e) = >>=-eq-ok (check_records [] stored) _ h in
    rw (← ok-injective e) ((check_records_sound [] stored checked).0, inl refl)

pub read_locked_records :
    (rs ls : List Record) → read_locked (records rs) ≡ ok ls → IsWellFormed rs × (ls ≡ rs)
unfolding read_locked
read_locked_records rs ls h =
    let (u, checked, e) = >>=-eq-ok (check_records [] rs) _ h in
    ((check_records_sound [] rs checked).0, sym (ok-injective e))
