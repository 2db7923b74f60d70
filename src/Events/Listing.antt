-- ===== src/Events/Listing.antt =====
-- internal/events/events.go: the order of the index, and what List shows of it.
use mathlib.Core.Path.{subst}
use hermes_security_skills.Base.{
  All, All-map, Bool, Bool-cases, List, [], ap, arith, inl, inr, keep, length, refl, suc, true,
  zero, ℕ, ◌&&◌, ◌++◌, ◌+◌, ◌-◌, ◌∷◌, ◌≡◌, ◌≤◌, ◌⊎◌,
}
use hermes_security_skills.Base.Int.{lebℤ, ltbℤ, negsuc, parts_eq, pos, pos_part, ℤ, ◌≤ℤ◌}
use hermes_security_skills.Events.{
  EventEntry, ListFilter, drop_first, insert_entry, list_events_of, passes, sort_entries,
}

-- The entries ascend by their sequence numbers.
abbrev pub IsAscending : List EventEntry → Type 0
IsAscending [] = Unit
IsAscending (e ∷ es) = All (λ (f : EventEntry). e.seq ≤ℤ f.seq) es × IsAscending es

insert_entry-All :
    (P : EventEntry → Type 0) (e : EventEntry) (es : List EventEntry)
    → P e
    → All P es
    → All P (insert_entry e es)
unfolding insert_entry
insert_entry-All P e [] h hs = (h, tt)
insert_entry-All P e (f ∷ fs) h (here, rest) = elim (Bool-cases (lebℤ e.seq f.seq)) [
  | inl g ↦ rw (g, insert_entry) (h, (here, rest))
  | inr g ↦ rw (g, insert_entry) (here, insert_entry-All P e fs h rest)
]

insert_entry-IsAscending :
    (e : EventEntry) (es : List EventEntry) → IsAscending es → IsAscending (insert_entry e es)
unfolding insert_entry
insert_entry-IsAscending e [] h = (tt, tt)
insert_entry-IsAscending e (f ∷ fs) (above, sorted) = elim (Bool-cases (lebℤ e.seq f.seq)) [
  | inl g ↦
      let first : e.seq ≤ℤ f.seq = ground arith in
      rw (g, insert_entry)
        (
          (
            first,
            All-map _ (λ (x : EventEntry). e.seq ≤ℤ x.seq) (λ x k. omega (arith, first, k)) fs
                above,
          ),
          (above, sorted),
        )
  | inr g ↦
      let first : f.seq ≤ℤ e.seq = ground arith in
      rw (g, insert_entry)
        (
          insert_entry-All (λ (x : EventEntry). f.seq ≤ℤ x.seq) e fs first above,
          insert_entry-IsAscending e fs sorted,
        )
]

pub sort_entries-IsAscending : (es : List EventEntry) → IsAscending (sort_entries es)
unfolding sort_entries
sort_entries-IsAscending [] = tt
sort_entries-IsAscending (e ∷ es) =
    insert_entry-IsAscending e (sort_entries es) (sort_entries-IsAscending es)

pub sort_entries-All :
    (P : EventEntry → Type 0) (es : List EventEntry) → All P es → All P (sort_entries es)
unfolding sort_entries
sort_entries-All P [] h = tt
sort_entries-All P (e ∷ es) (here, rest) =
    insert_entry-All P e (sort_entries es) here (sort_entries-All P es rest)

keep-All :
    (P : EventEntry → Type 0) (p : EventEntry → Bool) (es : List EventEntry)
    → All P es
    → All P (keep p es)
unfolding keep
keep-All P p [] h = tt
keep-All P p (e ∷ es) (here, rest) = elim (Bool-cases (p e)) [
  | inl f ↦ rw (f, keep) (here, keep-All P p es rest)
  | inr f ↦ rw (f, keep) (keep-All P p es rest)
]

keep-passed : (p : EventEntry → Bool) (es : List EventEntry) → All (λ e. p e ≡ true) (keep p es)
unfolding keep
keep-passed p [] = tt
keep-passed p (e ∷ es) = elim (Bool-cases (p e)) [
  | inl f ↦ rw (f, keep) (f, keep-passed p es)
  | inr f ↦ rw (f, keep) (keep-passed p es)
]

keep-IsAscending :
    (p : EventEntry → Bool) (es : List EventEntry) → IsAscending es → IsAscending (keep p es)
unfolding keep
keep-IsAscending p [] h = tt
keep-IsAscending p (e ∷ es) (above, sorted) = elim (Bool-cases (p e)) [
  | inl f ↦ rw (f, keep) (keep-All _ p es above, keep-IsAscending p es sorted)
  | inr f ↦ rw (f, keep) (keep-IsAscending p es sorted)
]

-- The entries before the last ones, and the last ones.
drop_first-parts :
    (n : ℕ) (es : List EventEntry)
    → n ≤ length es
    → (older : List EventEntry) × (es ≡ older ++ drop_first n es)
      × (length (drop_first n es) + n ≡ length es)
unfolding drop_first
drop_first-parts zero es h = ([], refl, omega arith)
drop_first-parts (suc n) [] h = absurd (omega (arith, h))
drop_first-parts (suc n) (e ∷ es) h =
    let (older, parts, size) = drop_first-parts n es (omega (arith, h)) in
    (e ∷ older, ap (λ x. e ∷ x) parts, omega (arith, size))

limit_exact :
    (l : ℤ) (m k : ℕ)
    → ltbℤ (pos 0) l && ltbℤ l (pos m) ≡ true
    → k + (m - pos_part l) ≡ m
    → pos k ≡ l
limit_exact (pos x) m k h s = let same : k ≡ x = ground arith in ap pos same
limit_exact (negsuc x) m k h s = absurd (ground arith)

-- What List shows: the last of the entries that pass the filter, as many as the limit lets.
pub record IsListed (entries : List EventEntry) (f : ListFilter) (out : List EventEntry)
    : Type 0 where
  pub older : List EventEntry
  pub passing : keep (passes f) entries ≡ older ++ out
  pub limited : pos 1 ≤ℤ f.limit → pos (length out) ≤ℤ f.limit
  pub full : (older ≡ []) ⊎ (pos (length out) ≡ f.limit)

pub list_events_of-IsListed :
    (entries : List EventEntry) (f : ListFilter) → IsListed entries f (list_events_of entries f)
unfolding list_events_of
list_events_of-IsListed entries f =
    let out = keep (passes f) entries in
    elim (Bool-cases (ltbℤ (pos 0) f.limit && ltbℤ f.limit (pos (length out)))) [
      | inr e ↦
          rw (e, list_events_of)
            (record { older = []; passing = refl; limited = λ h. ground arith; full = inl refl })
      | inl e ↦
          let n = length out - pos_part f.limit in
          let (older, parts, size) = drop_first-parts n out (omega arith) in
          let exact : pos (length (drop_first n out)) ≡ f.limit =
            limit_exact f.limit (length out) (length (drop_first n out)) e size in
          rw (e, list_events_of)
            (record {
              older = older;
              passing = parts;
              limited = λ h. omega (arith, parts_eq exact);
              full = inr exact;
            })
    ]

IsAscending-last : (older out : List EventEntry) → IsAscending (older ++ out) → IsAscending out
IsAscending-last [] out h = h
IsAscending-last (e ∷ older) out (_, rest) = IsAscending-last older out rest

All-last :
    (P : EventEntry → Type 0) (older out : List EventEntry) → All P (older ++ out) → All P out
All-last P [] out h = h
All-last P (e ∷ older) out (_, rest) = All-last P older out rest

-- Of an index in ascending order, List shows entries in ascending order that all pass the filter: the
-- last ones that do, as many as a positive limit lets; where it leaves any out, as many as the limit.
pub list_events_of-IsAscending :
    (entries : List EventEntry) (f : ListFilter)
    → IsAscending entries
    → IsListed entries f (list_events_of entries f)
      × IsAscending (list_events_of entries f)
      × All (λ e. passes f e ≡ true) (list_events_of entries f)
list_events_of-IsAscending entries f h =
    let i = list_events_of-IsListed entries f in
    let out = list_events_of entries f in
    (
      i,
      IsAscending-last i.older out
          (subst IsAscending i.passing (keep-IsAscending (passes f) entries h)),
      All-last _ i.older out
          (subst (All (λ e. passes f e ≡ true)) i.passing (keep-passed (passes f) entries)),
    )

pub list_events_of-All :
    (P : EventEntry → Type 0) (entries : List EventEntry) (f : ListFilter)
    → All P entries
    → All P (list_events_of entries f)
list_events_of-All P entries f h =
    let i = list_events_of-IsListed entries f in
    All-last P i.older (list_events_of entries f)
      (subst (All P) i.passing (keep-All P (passes f) entries h))
