-- ===== src/Approval/Store/Consuming.antt =====
-- internal/approval/store.go: Consume on the list of records, and ConsumeAt on one approval.
use mathlib.Core.Path.{subst}
use hermes_security_skills.Base.{
  Bool-cases, List, Option, Result, [], arith, err, false, if◌then◌else◌, inl, inr, ltb, none, ok,
  some, sym, true, ◌∷◌, ◌≡◌, ◌≢◌, ◌⊎◌,
}
use hermes_security_skills.Approval.{
  Approval, ApprovalError, Time, consume_at, exhausted, expired, is_valid, revoked,
}
use hermes_security_skills.Approval.Store.{
  Record, StoreError, consume_in, consume_record, not_active,
}
use hermes_security_skills.Approval.Store.Reading.{IsComplete, IsFresh, IsWellFormed}
use hermes_security_skills.Base.Int.{+ℤ_parts, lebℤ, pos, ℤ, ◌+ℤ◌}
use hermes_security_skills.Base.Text.{Text, ◌==◌}
use hermes_security_skills.Base.Text.Laws.{==_cases, ==_iff}

-- The approval in memory that a record stands for.
unfoldable pub to_approval : Record → Approval
to_approval r = record {
  capability = r.capability;
  host = r.host;
  method = r.method;
  path = r.path;
  max_requests = r.max_requests;
  account_ref = r.account_ref;
  expires_at = r.expires_at;
  risk = r.risk;
  used = r.used;
  is_revoked = r.is_revoked;
}

-- The first record with the id.
unfoldable pub lookup : Text → List Record → Option Record
lookup id [] = none
lookup id (r ∷ rs) = if r.id == id then some r else lookup id rs

-- The same error, as the store wraps it.
abbrev pub wrap : Result ApprovalError (Unit {0}) → Result StoreError (Unit {0})
wrap (ok _) = ok tt
wrap (err e) = err (not_active e)

-- The list after one request of `r` was used.
pub record IsUsed (now : Time) (id : Text) (rs rs' : List Record) (r : Record) : Type 0 where
  pub result : consume_in now id rs ≡ ok rs'
  pub counted : lookup id rs' ≡ some (record r { used = r.used +ℤ pos 1 })
  pub others : (other : Text) → other ≢ id → lookup other rs' ≡ lookup other rs
  pub fresh : (other : Text) → IsFresh other rs → IsFresh other rs'
  pub well_formed : IsWellFormed rs → IsWellFormed rs'

consume_record-cases :
    (now : Time) (r : Record)
    → ((is_valid (to_approval r) now ≡ true)
        × (consume_record now r ≡ ok (record r { used = r.used +ℤ pos 1 }))
        × ((consume_at now (to_approval r))
            ≡ (ok tt, to_approval (record r { used = r.used +ℤ pos 1 }))))
      ⊎ ((e : ApprovalError) × (consume_record now r ≡ err (not_active e))
          × (consume_at now (to_approval r) ≡ (err e, to_approval r)))
unfolding consume_record consume_at to_approval is_valid
consume_record-cases now r = elim (Bool-cases r.is_revoked) [
  | inl e ↦ inr (revoked, ground arith, ground arith)
  | inr e ↦ elim (Bool-cases (ltb now r.expires_at)) [
    | inr x ↦ inr (expired, ground arith, ground arith)
    | inl x ↦ elim (Bool-cases (lebℤ r.max_requests r.used)) [
      | inl y ↦ inr (exhausted, ground arith, ground arith)
      | inr y ↦ inl (ground arith, ground arith, ground arith)
    ]
  ]
]

used-IsComplete : (r : Record) (n : ℤ) → IsComplete r → IsComplete (record r { used = n })
used-IsComplete r n c = record {
  id = c.id;
  case_id = c.case_id;
  capability = c.capability;
  host = c.host;
  method = c.method;
  path = c.path;
  rooted = c.rooted;
  budget = c.budget;
  expiry = c.expiry;
  risk = c.risk;
}

used-IsWellFormed :
    (now : Time) (r : Record) (rs : List Record)
    → is_valid (to_approval r) now ≡ true
    → IsWellFormed (r ∷ rs)
    → IsWellFormed (record r { used = r.used +ℤ pos 1 } ∷ rs)
unfolding is_valid to_approval
used-IsWellFormed now r rs v w = record {
  complete = (used-IsComplete r (r.used +ℤ pos 1) w.complete.0, w.complete.1);
  in_range = (
    (
      ground (arith, +ℤ_parts r.used (pos 1), w.in_range.0),
      ground (arith, +ℤ_parts r.used (pos 1)),
    ),
    w.in_range.1,
  );
  distinct = w.distinct;
}

IsWellFormed-tail : (r : Record) (rs : List Record) → IsWellFormed (r ∷ rs) → IsWellFormed rs
IsWellFormed-tail r rs w = record {
  complete = w.complete.1;
  in_range = w.in_range.1;
  distinct = w.distinct.1;
}

abbrev pub used_once : Record → Record
used_once r = record r { used = r.used +ℤ pos 1 }

IsUsed-here :
    (now : Time) (id : Text) (r : Record) (rs : List Record)
    → r.id ≡ id
    → is_valid (to_approval r) now ≡ true
    → consume_record now r ≡ ok (used_once r)
    → IsUsed now id (r ∷ rs) (used_once r ∷ rs) r
unfolding consume_in lookup
IsUsed-here now id r rs same v c =
    let e = (==_iff r.id id).1 same in
    record {
      result = rw (e, c);
      counted = rw e;
      others = λ other ne. ground (arith, ==_iff r.id other, sym same);
      fresh = λ other f. f;
      well_formed = used-IsWellFormed now r rs v;
    }

IsUsed-later :
    (now : Time) (id : Text) (q r : Record) (rs rs' : List Record)
    → q.id ≢ id
    → IsUsed now id rs rs' r
    → IsUsed now id (q ∷ rs) (q ∷ rs') r
unfolding consume_in lookup
IsUsed-later now id q r rs rs' ne u =
    let e : q.id == id ≡ false = ground (arith, ==_iff q.id id) in
    record {
      result = rw (e, u.result);
      counted = rw (e, u.counted);
      others = λ other x. rw (u.others other x);
      fresh = λ other f. (f.0, u.fresh other f.1);
      well_formed = λ w.
          let w' = u.well_formed (IsWellFormed-tail q rs w) in
          record {
            complete = (w.complete.0, w'.complete);
            in_range = (w.in_range.0, w'.in_range);
            distinct = (u.fresh q.id w.distinct.0, w'.distinct);
          };
    }

-- Consume on the list, in step with ConsumeAt on the approval.
abbrev pub InStep : Time → Text → List Record → Record → Type 0
InStep now id rs r =
    ((rs' : List Record) × IsUsed now id rs rs' r
      × (consume_at now (to_approval r) ≡ (ok tt, to_approval (used_once r))))
    ⊎ ((e : ApprovalError) × (consume_in now id rs ≡ err (not_active e))
        × (consume_at now (to_approval r) ≡ (err e, to_approval r)))

InStep-here :
    (now : Time) (id : Text) (r : Record) (rs : List Record) → r.id ≡ id → InStep now id (r ∷ rs) r
unfolding consume_in
InStep-here now id r rs same = elim (consume_record-cases now r) [
  | inl (v, c, a) ↦ inl (used_once r ∷ rs, IsUsed-here now id r rs same v c, a)
  | inr (x, c, a) ↦ inr (x, rw ((==_iff r.id id).1 same, c), a)
]

InStep-later :
    (now : Time) (id : Text) (q : Record) (rs : List Record) (r : Record)
    → q.id ≢ id
    → InStep now id rs r
    → InStep now id (q ∷ rs) r
unfolding consume_in
InStep-later now id q rs r ne (inl (rs', u, a)) =
    inl (q ∷ rs', IsUsed-later now id q r rs rs' ne u, a)
InStep-later now id q rs r ne (inr (x, c, a)) =
    let e : q.id == id ≡ false = ground (arith, ==_iff q.id id) in inr (x, rw (e, c), a)

pub consume_in-InStep :
    (now : Time) (id : Text) (rs : List Record) (r : Record)
    → lookup id rs ≡ some r
    → InStep now id rs r
unfolding lookup
consume_in-InStep now id [] r h = cc
consume_in-InStep now id (q ∷ rs) r h = elim (==_cases q.id id) [
  | inl (e, same) ↦
      let here : q ≡ r = ground arith in
      subst (InStep now id (q ∷ rs)) here (InStep-here now id q rs same)
  | inr (e, ne) ↦ InStep-later now id q rs r ne (consume_in-InStep now id rs r (ground arith))
]
