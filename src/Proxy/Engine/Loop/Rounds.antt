-- ===== src/Proxy/Engine/Loop/Rounds.antt =====
-- internal/proxycore/engine.go: what one round of the loop of Execute can do, and induction over the
-- rounds.
use mathlib.Core.Path.{ap₂}
use mathlib.Core.Bool.{false≢true}
use hermes_security_skills.Base.{
  Bool-cases, Option-cases, ap, arith, eqb, eqb_iff, false, inl, inr, ltb, refl, some, suc, sym,
  true, zero, ℕ, ◌+◌, ◌∙◌, ◌∷◌, ◌≡◌, ◌≤◌, ◌⊎◌,
}
use hermes_security_skills.Base.Int.{negsuc, pos, ℤ}
use hermes_security_skills.Proxy.Engine.{
  Engine, HopResponse, Memory, Reason, World, budget_used_up, is_redirect_status, location_for,
  max_redirect_hops, next_hop, out_of_scope, rate_limited, round_trip,
}
use hermes_security_skills.Proxy.Engine.Loop.{
  Ending, Progress, Step, after_response, deny, fail, go, limited, logged, loop, loop_denied,
  loop_failed, loop_out_of_fuel, loop_stopped, received, refuse, round, spent, stop, transmit,
  with_budget, with_limiter,
}
use hermes_security_skills.Proxy.Limits.{Budget, take}
use hermes_security_skills.Proxy.Limits.Laws.{take_empty, take_full}

-- The slots that a budget still has: none where it is not positive.
unfoldable pub slots : Budget → ℕ
slots b = elim b.left [ pos n ↦ n | negsuc n ↦ 0 ]

pub ℤ-cases : (z : ℤ) → ((n : ℕ) × (z ≡ pos n)) ⊎ ((n : ℕ) × (z ≡ negsuc n))
ℤ-cases (pos n) = inl (n, refl)
ℤ-cases (negsuc n) = inr (n, refl)

leb_suc : (i n : ℕ) → ltb n (i + 1) ≡ false → suc i ≤ n
leb_suc i n h = ground arith

slots-pos : (b : Budget) (n : ℕ) → b.left ≡ pos n → slots b ≡ n
unfolding slots
slots-pos b n h = rw h refl

take_negative : (b : Budget) (n : ℕ) → b.left ≡ negsuc n → ((take b).0 ≡ false) × ((take b).1 ≡ b)
unfolding take
take_negative b n h = (ground arith, ground arith)

slots-take :
    (b : Budget)
    → ((take b).0 ≡ false) × ((take b).1 ≡ b)
      ⊎ ((take b).0 ≡ true) × (slots b ≡ suc (slots (take b).1))
unfolding slots take
slots-take b = elim (ℤ-cases b.left) [
  | inl (zero, h) ↦ rw (take_empty b h) (inl (refl, refl))
  | inl (suc n, h) ↦
      let (got, fewer) = take_full n b h in
      inr (got, slots-pos b (suc n) h ∙ ap suc (sym (slots-pos (take b).1 n fewer)))
  | inr (n, h) ↦ inl (take_negative b n h)
]

module _ (w : World) (e : Engine) where
  -- A request that passed the scope check was added to the log, for one slot.
  abbrev pub Sent : Progress w e → Memory w → Type 0
  Sent p m =
      (e.in_scope (w.show p.cur.url) ≡ true)
      × (m.log ≡ p.cur ∷ p.state.log)
      × (slots p.state.budget ≡ suc (slots m.budget))

  -- Nothing was sent.
  abbrev pub Unsent : Progress w e → Memory w → Type 0
  Unsent p m = (m.log ≡ p.state.log) × (slots m.budget ≤ slots p.state.budget)

  -- What is known after a round, for each way in which it ends.
  abbrev pub Round : ℕ → Progress w e → Step w e → Type 0
  Round idx p (stop p') =
      (¬ (idx ≡ 0)) × (p'.final ≡ p.final) × Unsent p p'.state
      ⊎ ((hr : HopResponse) × (p'.final ≡ some hr)) × Sent p p'.state
  Round idx p (deny d m) = (idx ≡ 0) × Unsent p m
  Round idx p (fail m) = Sent p m
  Round idx p (go p') =
      (e.bundle.follow_redirects ≡ true)
      × (suc idx ≤ max_redirect_hops)
      × ((hr : HopResponse) × (p'.final ≡ some hr)
          × ((loc : w.Url) × (p'.cur ≡ next_hop w p.cur hr loc)))
      × Sent p p'.state

  after_response-Round :
      (idx : ℕ) (hr : HopResponse) (p p' : Progress w e)
      → Sent p p'.state
      → p'.cur ≡ p.cur
      → p'.final ≡ some hr
      → Round idx p (after_response w e idx hr p')
  unfolding after_response
  after_response-Round idx hr p p' sent same final =
      elim (Bool-cases (is_redirect_status hr.status)) [
        | inr s ↦ rw (s, after_response) (inr ((hr, final), sent))
        | inl s ↦ elim (Option-cases (location_for w hr p'.cur.url)) [
          | inl l ↦ rw (s, l, after_response) (inr ((hr, final), sent))
          | inr (loc, l) ↦ elim (Bool-cases e.bundle.follow_redirects) [
            | inr f ↦ rw (s, l, f, after_response) (inr ((hr, final), sent))
            | inl f ↦ elim (Bool-cases (ltb max_redirect_hops (idx + 1))) [
              | inl m ↦ rw (s, l, f, m, after_response) (inr ((hr, final), sent))
              | inr m ↦
                  rw (s, l, f, m, after_response)
                    (
                      f,
                      leb_suc idx max_redirect_hops m,
                      ((hr, final, (loc, ap (λ c. next_hop w c hr loc) same))),
                      sent,
                    )
            ]
          ]
        ]
      ]

  refuse-Round :
      (idx http : ℕ) (why : Reason) (p p' : Progress w e)
      → p'.final ≡ p.final
      → Unsent p p'.state
      → Round idx p (refuse w e idx http why p')
  unfolding refuse
  refuse-Round idx http why p p' final kept = elim (Bool-cases (eqb idx 0)) [
    | inl e0 ↦ rw (e0, refuse) ((eqb_iff idx 0).0 e0, kept)
    | inr e0 ↦ rw (e0, refuse) (inl (λ h. false≢true (sym e0 ∙ (eqb_iff idx 0).1 h), final, kept))
  ]

  transmit-Round :
      (idx : ℕ) (p p' : Progress w e)
      → e.in_scope (w.show p.cur.url) ≡ true
      → p'.cur ≡ p.cur
      → p'.state.log ≡ p.state.log
      → slots p.state.budget ≡ suc (slots p'.state.budget)
      → Round idx p (transmit w e idx p')
  unfolding transmit
  transmit-Round idx p p' scope cur log slot =
      let sent : Sent p (logged w e p').state = (scope, ap₂ (λ x y. x ∷ y) cur log, slot) in
      elim (Option-cases (round_trip w idx p'.cur)) [
        | inl f ↦ rw (f, transmit) sent
        | inr (hr, f) ↦
            rw (f, transmit)
              (after_response-Round idx hr p (received w e idx hr (logged w e p')) sent cur refl)
      ]

  with_limiter-Round :
      (idx : ℕ) (p p' : Progress w e)
      → e.in_scope (w.show p.cur.url) ≡ true
      → p'.cur ≡ p.cur
      → p'.state.log ≡ p.state.log
      → p'.final ≡ p.final
      → slots p.state.budget ≡ suc (slots p'.state.budget)
      → Round idx p (with_limiter w e idx p')
  unfolding with_limiter
  with_limiter-Round idx p p' scope cur log final slot =
      let p'' = limited w e (w.allow (w.clock idx) p'.state.limit).1 p' in
      elim (Bool-cases (w.allow (w.clock idx) p'.state.limit).0) [
        | inl f ↦ rw (f, with_limiter) (transmit-Round idx p p'' scope cur log slot)
        | inr f ↦
            rw (f, with_limiter)
              (refuse-Round idx 429 rate_limited p p'' final (log, omega (arith, slot)))
      ]

  round-Round : (idx : ℕ) (p : Progress w e) → Round idx p (round w e idx p)
  unfolding round with_budget
  round-Round idx p =
      let p' = spent w e (take p.state.budget).1 p in
      elim (Bool-cases (e.in_scope (w.show p.cur.url))) [
        | inr f ↦ rw (f, round) (refuse-Round idx 403 out_of_scope p p refl (refl, omega arith))
        | inl f ↦ elim (slots-take p.state.budget) [
          | inl (none_left, same) ↦
              rw (f, none_left, round, with_budget)
                (refuse-Round idx 429 budget_used_up p p' refl (refl, rw same (omega arith)))
          | inr (got, fewer) ↦
              rw (f, got, round, with_budget) (with_limiter-Round idx p p' f refl refl refl fewer)
        ]
      ]

  -- What is known after a round of the loop: `P` where it goes on, and `Q` of the ending otherwise.
  abbrev pub Then : (Ending w e → Type 0) → (Progress w e → Type 0) → Step w e → Type 0
  Then Q P (stop p) = Q (loop_stopped p)
  Then Q P (deny d m) = Q (loop_denied d m)
  Then Q P (fail m) = Q (loop_failed m)
  Then Q P (go p) = P p

  module _ (Q : Ending w e → Type 0) (P : ℕ → ℕ → Progress w e → Type 0) where
    loop-Then :
        (fuel idx : ℕ)
        → ((p : Progress w e) → P fuel (idx + 1) p → Q (loop w e fuel (idx + 1) p))
        → (s : Step w e) → Then Q (P fuel (idx + 1)) s
        → Q (elim s as (λ _. Ending w e) [
          | stop p' ↦ loop_stopped p'
          | deny d m ↦ loop_denied d m
          | fail m ↦ loop_failed m
          | go p' ↦ loop w e fuel (idx + 1) p'
        ])
    loop-Then fuel idx rest (stop p) h = h
    loop-Then fuel idx rest (deny d m) h = h
    loop-Then fuel idx rest (fail m) h = h
    loop-Then fuel idx rest (go p) h = rest p h

    -- Induction over the rounds, from what each round can do.
    pub loop_induction :
        ((idx : ℕ) (p : Progress w e) → P 0 idx p → Q (loop_out_of_fuel p.state))
        → ((fuel idx : ℕ) (p : Progress w e)
            → P (suc fuel) idx p
            → (s : Step w e) → Round idx p s
            → Then Q (P fuel (idx + 1)) s)
        → (fuel idx : ℕ) (p : Progress w e) → P fuel idx p
        → Q (loop w e fuel idx p)
    unfolding loop
    loop_induction empty each zero idx p h = empty idx p h
    loop_induction empty each (suc fuel) idx p h =
        loop-Then fuel idx (λ p'. loop_induction empty each fuel (idx + 1) p') (round w e idx p)
          (each fuel idx p h (round w e idx p) (round-Round idx p))
