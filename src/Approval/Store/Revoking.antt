-- ===== src/Approval/Store/Revoking.antt =====
-- internal/approval/store.go: RevokeCase on the records of a case and of the others.
use hermes_security_skills.Base.{
  All, Bool-cases, List, [], arith, inl, inr, keep, map, none, not, refl, sym, true, ◌&&◌, ◌∙◌, ◌∷◌,
  ◌≡◌, ◌≢◌,
}
use hermes_security_skills.Approval.{Time}
use hermes_security_skills.Approval.Store.{
  Query, Record, active_at, count_revoked, covers, find_from, revoke_one,
}
use hermes_security_skills.Approval.Store.Reading.{
  HasDistinctIds, InRange, IsComplete, IsFresh, IsWellFormed,
}
use hermes_security_skills.Base.Text.{Text, ◌==◌}
use hermes_security_skills.Base.Text.Laws.{==_cases, ==_iff}

module _ (now : Time) (case_id reason : Text) where
  unfoldable pub revoked_records : List Record → List Record
  revoked_records rs = map (revoke_one now case_id reason) rs

  revoke_one-IsComplete : (r : Record) → IsComplete r → IsComplete (revoke_one now case_id reason r)
  unfolding revoke_one
  revoke_one-IsComplete r c = elim (Bool-cases (r.case_id == case_id && not r.is_revoked)) [
    | inl e ↦ rw e (record {
      id = c.id;
      case_id = c.case_id;
      capability = c.capability;
      host = c.host;
      method = c.method;
      path = c.path;
      rooted = c.rooted;
      budget = c.budget;
      expiry = c.expiry;
      risk = c.risk;
    })
    | inr e ↦ rw e c
  ]

  revoke_one-InRange : (r : Record) → InRange r → InRange (revoke_one now case_id reason r)
  unfolding revoke_one
  revoke_one-InRange r i = ground arith

  revoke_one-id : (r : Record) → (revoke_one now case_id reason r).id ≡ r.id
  unfolding revoke_one
  revoke_one-id r = ground arith

  pub revoke_one-case_id : (r : Record) → (revoke_one now case_id reason r).case_id ≡ r.case_id
  unfolding revoke_one
  revoke_one-case_id r = ground arith

  revoke_one-is_revoked :
      (r : Record) → r.case_id ≡ case_id → (revoke_one now case_id reason r).is_revoked ≡ true
  unfolding revoke_one
  revoke_one-is_revoked r e = ground (arith, ==_iff r.case_id case_id)

  pub revoke_one_other : (r : Record) → r.case_id ≢ case_id → revoke_one now case_id reason r ≡ r
  unfolding revoke_one
  revoke_one_other r ne = ground (arith, ==_iff r.case_id case_id)

  pub revoked_records-complete :
      (rs : List Record) → All IsComplete rs → All IsComplete (revoked_records rs)
  unfolding revoked_records
  revoked_records-complete [] c = tt
  revoked_records-complete (r ∷ rs) (c, cs) =
      (revoke_one-IsComplete r c, revoked_records-complete rs cs)

  pub revoked_records-InRange :
      (rs : List Record) → All InRange rs → All InRange (revoked_records rs)
  unfolding revoked_records
  revoked_records-InRange [] c = tt
  revoked_records-InRange (r ∷ rs) (c, cs) = (revoke_one-InRange r c, revoked_records-InRange rs cs)

  pub revoked_records-IsFresh :
      (id : Text) (rs : List Record) → IsFresh id rs → IsFresh id (revoked_records rs)
  unfolding revoked_records
  revoked_records-IsFresh id [] f = tt
  revoked_records-IsFresh id (r ∷ rs) (f, fs) =
      ((λ e. f (sym (revoke_one-id r) ∙ e)), revoked_records-IsFresh id rs fs)

  pub revoked_records-distinct :
      (rs : List Record) → HasDistinctIds rs → HasDistinctIds (revoked_records rs)
  unfolding revoked_records
  revoked_records-distinct [] d = tt
  revoked_records-distinct (r ∷ rs) (f, d) =
      (rw (revoke_one-id r) (revoked_records-IsFresh r.id rs f), revoked_records-distinct rs d)

  pub revoked_records-IsWellFormed :
      (rs : List Record) → IsWellFormed rs → IsWellFormed (revoked_records rs)
  revoked_records-IsWellFormed rs w = record {
    complete = revoked_records-complete rs w.complete;
    in_range = revoked_records-InRange rs w.in_range;
    distinct = revoked_records-distinct rs w.distinct;
  }

  pub revoked_records_none :
      (rs : List Record) → count_revoked case_id rs ≡ 0 → revoked_records rs ≡ rs
  unfolding revoked_records revoke_one count_revoked
  revoked_records_none [] h = refl
  revoked_records_none (r ∷ rs) h = ground (arith, revoked_records_none rs)

  -- Every approval of the case is revoked.
  abbrev pub AllRevoked : List Record → Type 0
  AllRevoked rs = All (λ r. r.case_id ≡ case_id → r.is_revoked ≡ true) rs

  pub revoked_records-AllRevoked : (rs : List Record) → AllRevoked (revoked_records rs)
  unfolding revoked_records
  revoked_records-AllRevoked [] = tt
  revoked_records-AllRevoked (r ∷ rs) = (
    (λ e. revoke_one-is_revoked r (sym (revoke_one-case_id r) ∙ e)),
    revoked_records-AllRevoked rs,
  )

  pub count_revoked-AllRevoked : (rs : List Record) → AllRevoked rs → count_revoked case_id rs ≡ 0
  unfolding count_revoked
  count_revoked-AllRevoked [] h = refl
  count_revoked-AllRevoked (r ∷ rs) (h, hs) = elim (==_cases r.case_id case_id) [
    | inl (e, p) ↦ ground (arith, h p, count_revoked-AllRevoked rs hs)
    | inr (e, p) ↦ ground (arith, count_revoked-AllRevoked rs hs)
  ]

  pub keep-AllRevoked :
      (t : Time) (rs : List Record)
      → AllRevoked rs
      → keep (λ r. r.case_id == case_id && active_at r t) rs ≡ []
  unfolding keep active_at
  keep-AllRevoked t [] h = refl
  keep-AllRevoked t (r ∷ rs) (h, hs) = elim (==_cases r.case_id case_id) [
    | inl (e, p) ↦ ground (arith, h p, keep-AllRevoked t rs hs)
    | inr (e, p) ↦ ground (arith, keep-AllRevoked t rs hs)
  ]

  pub find_from-AllRevoked :
      (t : Time) (q : Query) (rs : List Record)
      → q.case_id ≡ case_id
      → AllRevoked rs
      → find_from t q none rs ≡ none
  unfolding find_from covers active_at
  find_from-AllRevoked t q [] c h = refl
  find_from-AllRevoked t q (r ∷ rs) c (h, hs) = elim (==_cases r.case_id q.case_id) [
    | inl (e, p) ↦ ground (arith, h (p ∙ c), find_from-AllRevoked t q rs c hs)
    | inr (e, p) ↦ ground (arith, find_from-AllRevoked t q rs c hs)
  ]

  pub keep_other :
      (t : Time) (c : Text) (rs : List Record)
      → c ≢ case_id
      → keep (λ r. r.case_id == c && active_at r t) (revoked_records rs)
        ≡ keep (λ r. r.case_id == c && active_at r t) rs
  unfolding keep revoked_records
  keep_other t c [] ne = refl
  keep_other t c (r ∷ rs) ne = elim (==_cases r.case_id c) [
    | inl (e, p) ↦ rw (revoke_one_other r (λ x. ne (sym p ∙ x)), keep_other t c rs ne)
    | inr (e, p) ↦ rw (revoke_one-case_id r, e, keep_other t c rs ne)
  ]
