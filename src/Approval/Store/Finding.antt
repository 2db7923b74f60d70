-- ===== src/Approval/Store/Finding.antt =====
-- internal/approval/store.go: FindActive, and the approvals that cover a request.
use mathlib.Core.Bool.{false≢true}
use mathlib.Core.Option.{some-injective}
use mathlib.Core.Path.{subst}
use hermes_security_skills.Base.{
  &&-eq-true, >>=-eq-ok, All, Bool-cases, In, List, Option, Option-cases, Result, Result-cases, [],
  ap, arith, err, false, inl, inr, ltb→lt, none, ok, ok-injective, refl, some, sym, true, ◌&&◌, ◌<◌,
  ◌↔◌, ◌∙◌, ◌∷◌, ◌≡◌, ◌⊎◌,
}
use hermes_security_skills.Approval.{Time}
use hermes_security_skills.Approval.Store.{
  Env, File, Query, Record, StoreError, active_at, better, budget_left, covers, find_active,
  find_from, load, normalise, path_any, read_locked,
}
use hermes_security_skills.Base.Int.{+ℤ_parts, ltbℤ, pos, ◌+ℤ◌, ◌≤ℤ◌}
use hermes_security_skills.Base.Text.Laws.{==_iff}

-- What it means that an approval covers a request, written out.
pub record Covers (now : Time) (q : Query) (r : Record) : Type 0 where
  pub not_revoked : r.is_revoked ≡ false
  pub not_expired : now < r.expires_at
  pub budget : r.used +ℤ pos 1 ≤ℤ r.max_requests
  pub case_id : r.case_id ≡ q.case_id
  pub capability : r.capability ≡ q.capability
  pub host : r.host ≡ q.host
  pub method : r.method ≡ q.method
  pub path : (r.path ≡ path_any) ⊎ (r.path ≡ q.path)

pub covers_iff : (now : Time) (q : Query) (r : Record) → (covers now q r ≡ true) ↔ Covers now q r
unfolding covers active_at
covers_iff now q r =
    let c = ==_iff r.case_id q.case_id in
    let p = ==_iff r.capability q.capability in
    let h = ==_iff r.host q.host in
    let m = ==_iff r.method q.method in
    let a = ==_iff r.path path_any in
    let b = ==_iff r.path q.path in
    let s = +ℤ_parts r.used (pos 1) in
    (
      λ e. record {
        not_revoked = ground arith;
        not_expired = ground arith;
        budget = ground (arith, s);
        case_id = ground (arith, c);
        capability = ground (arith, p);
        host = ground (arith, h);
        method = ground (arith, m);
        path = ground (arith, a, b);
      },
      λ k. ground (arith, c, p, h, m, a, b, s),
    )

-- The answer has no more budget left than the best one so far.
abbrev Leads : Record → Option Record → Type 0
Leads r none = Unit
Leads r (some b) = budget_left r ≤ℤ budget_left b

find_from-none :
    (now : Time) (q : Query) (best : Option Record) (rs : List Record)
    → find_from now q best rs ≡ none
    → (best ≡ none) × All (λ s. covers now q s ≡ false) rs
unfolding find_from better
find_from-none now q best [] h = (h, tt)
find_from-none now q none (r ∷ rs) h = elim (Bool-cases (covers now q r)) [
  | inl e ↦ absurd (ground (arith, find_from-none now q (some r) rs))
  | inr e ↦ let (_, rest) = find_from-none now q none rs (ground arith) in (refl, (e, rest))
]
find_from-none now q (some b) (r ∷ rs) h =
    absurd (ground (arith, find_from-none now q (some r) rs, find_from-none now q (some b) rs))

-- Where the answer comes from.
abbrev From : Time → Query → Option Record → List Record → Record → Type 0
From now q best rs r = (best ≡ some r) ⊎ (In r rs × (covers now q r ≡ true))

module _ (now : Time) (q : Query) (s r : Record) (rs : List Record) where
  From-here :
      (best : Option Record)
      → covers now q s ≡ true
      → From now q (some s) rs r
      → From now q best (s ∷ rs) r
  From-here best c (inl e) =
      let same : s ≡ r = some-injective s r e in
      inr (inl same, subst (λ x. covers now q x ≡ true) same c)
  From-here best c (inr (i, d)) = inr (inr i, d)

  From-later : (best : Option Record) → From now q best rs r → From now q best (s ∷ rs) r
  From-later best (inl e) = inl e
  From-later best (inr (i, d)) = inr (inr i, d)

abbrev Least : Time → Query → List Record → Record → Type 0
Least now q rs r = All (λ s. covers now q s ≡ true → budget_left r ≤ℤ budget_left s) rs

find_from-some :
    (now : Time) (q : Query) (best : Option Record) (rs : List Record) (r : Record)
    → find_from now q best rs ≡ some r
    → Leads r best × From now q best rs r × Least now q rs r
unfolding find_from better
find_from-some now q none [] r h = cc
find_from-some now q (some b) [] r h = (ground arith, inl h, tt)
find_from-some now q none (s ∷ rs) r h = elim (Bool-cases (covers now q s)) [
  | inl e ↦
      let (lead, from, least) = find_from-some now q (some s) rs r (ground arith) in
      (tt, From-here now q s r rs none e from, ((λ _. lead), least))
  | inr e ↦
      let (lead, from, least) = find_from-some now q none rs r (ground arith) in
      (tt, From-later now q s r rs none from, ((λ c. cc), least))
]
find_from-some now q (some b) (s ∷ rs) r h =
    elim (Bool-cases (covers now q s && ltbℤ (budget_left s) (budget_left b))) [
      | inl e ↦
          let (lead, from, least) = find_from-some now q (some s) rs r (ground arith) in
          let (c, less) = &&-eq-true (covers now q s) (ltbℤ (budget_left s) (budget_left b)) e in
          let below = ltb→lt _ _ less in
          (omega (arith, lead, below), From-here now q s r rs (some b) c from, ((λ _. lead), least))
      | inr e ↦
          let (lead, from, least) = find_from-some now q (some b) rs r (ground arith) in
          (lead, From-later now q s r rs (some b) from, ((λ c. ground arith), least))
    ]

From-none :
    (now : Time) (q : Query) (rs : List Record) (r : Record)
    → From now q none rs r
    → In r rs × (covers now q r ≡ true)
From-none now q rs r (inl e) = cc
From-none now q rs r (inr p) = p

Least-Covers :
    (now : Time) (q : Query) (r : Record) (rs : List Record)
    → Least now q rs r
    → All (λ s. Covers now q s → budget_left r ≤ℤ budget_left s) rs
Least-Covers now q r [] l = tt
Least-Covers now q r (s ∷ rs) (l, ls) =
    ((λ c. l ((covers_iff now q s).1 c)), Least-Covers now q r rs ls)

not-Covers :
    (now : Time) (q : Query) (rs : List Record)
    → All (λ s. covers now q s ≡ false) rs
    → All (λ r. ¬ (Covers now q r)) rs
not-Covers now q [] l = tt
not-Covers now q (s ∷ rs) (l, ls) =
    ((λ c. false≢true (sym l ∙ (covers_iff now q s).1 c)), not-Covers now q rs ls)

find_from-none-Covers :
    (now : Time) (q : Query) (rs : List Record)
    → All (λ r. ¬ (Covers now q r)) rs
    → find_from now q none rs ≡ none
unfolding find_from
find_from-none-Covers now q [] l = refl
find_from-none-Covers now q (s ∷ rs) (l, ls) = elim (Bool-cases (covers now q s)) [
  | inl e ↦ absurd (l ((covers_iff now q s).0 e))
  | inr e ↦ rw e (find_from-none-Covers now q rs ls)
]

find_active-eq-ok :
    (env : Env) (q : Query) (file : File) (found : Option Record)
    → find_active env q file ≡ ok found
    → (rs : List Record) × (read_locked file ≡ ok rs)
      × (find_from env.now (normalise q) none rs ≡ found)
unfolding find_active
find_active-eq-ok env q file found h =
    let (rs, was_read, e) = >>=-eq-ok (read_locked file) _ h in (rs, was_read, ok-injective e)

-- An approval that FindActive finds is in the store, covers the request in every respect, and no
-- other one that does has less budget left.
pub find_active-IsBest :
    (env : Env) (q : Query) (file : File) (r : Record)
    → find_active env q file ≡ ok (some r)
    → (rs : List Record) × (load file ≡ ok rs)
      × In r rs
      × Covers env.now (normalise q) r
      × All (λ s. Covers env.now (normalise q) s → budget_left r ≤ℤ budget_left s) rs
unfolding load
find_active-IsBest env q file r h =
    let (rs, was_read, found) = find_active-eq-ok env q file (some r) h in
    let (lead, from, least) = find_from-some env.now (normalise q) none rs r found in
    let (listed, c) = From-none env.now (normalise q) rs r from in
    (rs, was_read, listed, (covers_iff _ _ r).0 c, Least-Covers env.now (normalise q) r rs least)

-- FindActive finds nothing exactly when the store can be read and no approval of it covers the
-- request.
pub find_active-none :
    (env : Env) (q : Query) (file : File) (rs : List Record)
    → load file ≡ ok rs
    → (find_active env q file ≡ ok none) ↔ All (λ r. ¬ (Covers env.now (normalise q) r)) rs
unfolding load find_active
find_active-none env q file rs was_read = (
  λ h.
      let (rs', again, found) = find_active-eq-ok env q file none h in
      let same : rs' ≡ rs = ok-injective (sym again ∙ was_read) in
      not-Covers env.now (normalise q) rs
        (find_from-none env.now (normalise q) none rs
          (ap (find_from env.now (normalise q) none) (sym same) ∙ found)).1,
  λ none_covers. rw (was_read, find_from-none-Covers env.now (normalise q) rs none_covers),
)

-- What FindActive may answer.
abbrev pub IsFound : Env → Query → File → Result StoreError (Option Record) → Type 0
IsFound env q file (err e) = load file ≡ err e
IsFound env q file (ok none) =
    (rs : List Record) × (load file ≡ ok rs) × All (λ r. ¬ (Covers env.now (normalise q) r)) rs
IsFound env q file (ok (some r)) =
    (rs : List Record) × (load file ≡ ok rs)
    × In r rs
    × Covers env.now (normalise q) r
    × All (λ s. Covers env.now (normalise q) s → budget_left r ≤ℤ budget_left s) rs

-- FindActive fails where the store cannot be read; it finds nothing where no approval of the store
-- covers the request; otherwise it returns one of the store that covers the request in every respect,
-- and no other one that does has less budget left.
pub find_active-IsFound :
    (env : Env) (q : Query) (file : File) → IsFound env q file (find_active env q file)
unfolding load find_active
find_active-IsFound env q file = elim (Result-cases (read_locked file)) [
  | inr (e, f) ↦ rw (f, find_active) f
  | inl (rs, f) ↦
      let answer : find_active env q file ≡ ok (find_from env.now (normalise q) none rs) =
        rw (f, find_active) refl in
      elim (Option-cases (find_from env.now (normalise q) none rs)) [
        | inl g ↦
            let nothing = answer ∙ ap (λ x. ok x) g in
            rw nothing (rs, f, (find_active-none env q file rs f).0 nothing)
        | inr (r, g) ↦
            let found = answer ∙ ap (λ x. ok x) g in
            rw found (find_active-IsBest env q file r found)
      ]
]
