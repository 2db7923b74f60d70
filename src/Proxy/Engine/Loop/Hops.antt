-- ===== src/Proxy/Engine/Loop/Hops.antt =====
-- internal/proxycore/engine.go: the number of requests of the loop of Execute, and how it ends.
use hermes_security_skills.Base.{
  arith, inl, inr, length, refl, some, suc, true, ℕ, ◌+◌, ◌∙◌, ◌∷◌, ◌≡◌, ◌≤◌, ◌⊎◌,
}
use hermes_security_skills.Approval.{run}
use hermes_security_skills.Proxy.Engine.{Engine, HopResponse, Memory, World, max_redirect_hops}
use hermes_security_skills.Proxy.Engine.Loop.{
  Ending, Progress, Step, deny, fail, go, loop, loop_denied, loop_failed, loop_out_of_fuel,
  loop_stopped, stop,
}
use hermes_security_skills.Proxy.Engine.Loop.Rounds.{Round, Then, loop_induction}

module _ (w : World) (e : Engine) (start : ℕ) where
  -- Where the loop may stand before a round: the fuel covers the hops that are left, no more
  -- requests were sent than hops were made, and behind the first hop there is a response.
  abbrev pub Running : ℕ → ℕ → Progress w e → Type 0
  Running fuel idx p =
      (idx + fuel ≡ suc max_redirect_hops)
      × (idx ≤ max_redirect_hops)
      × (length p.state.log ≡ start + idx)
      × ((e.bundle.follow_redirects ≡ true) ⊎ (idx ≡ 0))
      × ((idx ≡ 0) ⊎ ((hr : HopResponse) × (p.final ≡ some hr)))

  -- The requests of one execution: one for each hop, and only one where redirects are not followed.
  abbrev pub Few : Memory w → Type 0
  Few m =
      (length m.log ≤ start + suc max_redirect_hops)
      × ((e.bundle.follow_redirects ≡ true) ⊎ (length m.log ≤ start + 1))

  -- How the loop may end: with a response, with a denial before any request, or with an error.
  abbrev pub Ended : Ending w e → Type 0
  Ended (loop_stopped p) = Few p.state × ((hr : HopResponse) × (p.final ≡ some hr))
  Ended (loop_denied d m) = length m.log ≡ start
  Ended (loop_failed m) = Few m
  Ended (loop_out_of_fuel m) = ⊥

  Few-Unsent :
      (fuel idx : ℕ) (p : Progress w e) (m : Memory w)
      → Running fuel idx p
      → m.log ≡ p.state.log
      → Few m
  Few-Unsent fuel idx p m (_, within, count, following, _) same = (
    rw same (omega (arith, count, within)),
    elim following [ inl f ↦ inl f | inr first ↦ inr (rw same (omega (arith, count, first))) ],
  )

  Few-Sent :
      (fuel idx : ℕ) (p : Progress w e) (m : Memory w)
      → Running fuel idx p
      → m.log ≡ p.cur ∷ p.state.log
      → Few m
  Few-Sent fuel idx p m (_, within, count, following, _) log = (
    rw log (omega (arith, count, within)),
    elim following [ inl f ↦ inl f | inr first ↦ inr (rw log (omega (arith, count, first))) ],
  )

  Ended-Round :
      (fuel idx : ℕ) (p : Progress w e)
      → Running (suc fuel) idx p
      → (s : Step w e) → Round w e idx p s
      → Then w e Ended (Running fuel (idx + 1)) s
  Ended-Round fuel idx p run (stop p') (inl (later, final, (same, _))) = (
    Few-Unsent (suc fuel) idx p p'.state run same,
    elim (let (_, _, _, _, answered) = run in answered) [
      | inl first ↦ absurd (later first)
      | inr (hr, got) ↦ (hr, final ∙ got)
    ],
  )
  Ended-Round fuel idx p run (stop p') (inr (final, (_, log, _))) =
      (Few-Sent (suc fuel) idx p p'.state run log, final)
  Ended-Round fuel idx p (_, _, count, _, _) (deny d m) (first, (same, _)) =
      rw same (omega (arith, count, first))
  Ended-Round fuel idx p run (fail m) (_, log, _) = Few-Sent (suc fuel) idx p m run log
  Ended-Round fuel idx p (enough, _, count, _, _) (go p')
        (follow, bound, (hr, final, _), (_, log, _)) =
      (
        omega (arith, enough),
        omega (arith, bound),
        rw log (omega (arith, count)),
        inl follow,
        inr (hr, final),
      )

  -- The loop, with the fuel that Execute's limit of hops asks for, always ends: with a response, with
  -- a denial before anything was sent, or with the error of a request. It sends at most
  -- maxRedirectHops + 1 requests, and at most one where the bundle does not follow redirects.
  pub loop-Ended :
      (p : Progress w e) → length p.state.log ≡ start → Ended (loop w e (suc max_redirect_hops) 0 p)
  loop-Ended p count =
      loop_induction w e Ended Running
        (λ idx p (enough, within, _, _, _). absurd (omega (arith, enough, within))) Ended-Round
        (suc max_redirect_hops) 0 p (refl, omega arith, omega (arith, count), inr refl, inl refl)
