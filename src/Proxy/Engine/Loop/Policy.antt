-- ===== src/Proxy/Engine/Loop/Policy.antt =====
-- internal/proxycore/engine.go: the scope, the budget and the headers of the requests that the loop of
-- Execute sends.
use hermes_security_skills.Base.{
  All, Bool-cases, [], arith, false, inl, inr, keep, length, not, refl, suc, true, ℕ, ◌+◌, ◌∙◌, ◌∷◌,
  ◌≡◌, ◌≤◌, ◌⊎◌,
}
use hermes_security_skills.Base.Text.{◌==◌}
use hermes_security_skills.Base.Text.Laws.{==_iff}
use hermes_security_skills.Proxy.Engine.{Engine, Hop, HopResponse, Memory, World, next_hop}
use hermes_security_skills.Proxy.Engine.Loop.{
  Ending, Progress, Step, deny, fail, go, loop, loop_denied, loop_failed, loop_out_of_fuel,
  loop_stopped, stop,
}
use hermes_security_skills.Proxy.Engine.Loop.Rounds.{Round, Sent, Then, loop_induction, slots}
use hermes_security_skills.Proxy.Headers.{Header, is_sensitive_header}

module _ (w : World) (e : Engine) where
  -- The state of the engine at an ending of the loop.
  abbrev pub memory_of : Ending w e → Memory w
  memory_of (loop_stopped p) = p.state
  memory_of (loop_denied d m) = m
  memory_of (loop_failed m) = m
  memory_of (loop_out_of_fuel m) = m

  module _ (Good : Hop w → Type 0) where
    abbrev GoodLog : Memory w → Type 0
    GoodLog m = All Good m.log

    -- What has to be shown of a hop: what it may be known to be, once the scope check has passed.
    module _ (Known : Hop w → Type 0)
        (good : (h : Hop w) → e.in_scope (w.show h.url) ≡ true → Known h → Good h)
        (next : (h : Hop w) (hr : HopResponse) (loc : w.Url)
          → Known h
          → Known (next_hop w h hr loc)) where
      abbrev KnownAt : ℕ → ℕ → Progress w e → Type 0
      KnownAt _ _ p = Known p.cur × GoodLog p.state

      GoodLog-Sent : (p : Progress w e) (m : Memory w) → KnownAt 0 0 p → Sent w e p m → GoodLog m
      GoodLog-Sent p m (known, old) (scope, log, _) = rw log (good p.cur scope known, old)

      GoodLog-Round :
          (fuel idx : ℕ) (p : Progress w e)
          → KnownAt (suc fuel) idx p
          → (s : Step w e) → Round w e idx p s
          → Then w e (λ end. GoodLog (memory_of end)) (KnownAt fuel (idx + 1)) s
      GoodLog-Round fuel idx p (_, old) (stop p') (inl (_, _, (same, _))) = rw same old
      GoodLog-Round fuel idx p known (stop p') (inr (_, sending)) =
          GoodLog-Sent p p'.state known sending
      GoodLog-Round fuel idx p (_, old) (deny d m) (_, (same, _)) = rw same old
      GoodLog-Round fuel idx p known (fail m) sending = GoodLog-Sent p m known sending
      GoodLog-Round fuel idx p (known, old) (go p') (_, _, (hr, _, (loc, cur)), sending) =
          (rw cur (next p.cur hr loc known), GoodLog-Sent p p'.state (known, old) sending)

      pub loop-All :
          (fuel idx : ℕ) (p : Progress w e)
          → Known p.cur
          → All Good p.state.log
          → All Good (memory_of (loop w e fuel idx p)).log
      loop-All fuel idx p known old =
          loop_induction w e (λ end. GoodLog (memory_of end)) KnownAt (λ idx p h. h.1) GoodLog-Round
            fuel idx p (known, old)

  abbrev pub InScope : Hop w → Type 0
  InScope h = e.in_scope (w.show h.url) ≡ true

  -- If every logged request passed the scope check before the loop, then every logged request has
  -- passed it after the loop, redirects included, however the loop ends.
  pub loop-InScope :
      (fuel idx : ℕ) (p : Progress w e)
      → All InScope p.state.log
      → All InScope (memory_of (loop w e fuel idx p)).log
  loop-InScope fuel idx p old =
      loop-All InScope (λ _. Unit) (λ h scope _. scope) (λ h hr loc _. tt) fuel idx p tt old

  -- A request to another host than the first one carries no sensitive header.
  abbrev pub KeepsSecrets : w.Url → Hop w → Type 0
  KeepsSecrets first h =
      (w.host h.url ≡ w.host first) ⊎ All (λ e. is_sensitive_header e.0 ≡ false) h.headers

  keep_plain :
      (h : Header)
      → All (λ e. is_sensitive_header e.0 ≡ false) (keep (λ e. not (is_sensitive_header e.0)) h)
  unfolding keep
  keep_plain [] = tt
  keep_plain (f ∷ h) = elim (Bool-cases (is_sensitive_header f.0)) [
    | inl s ↦ rw (s, keep) (keep_plain h)
    | inr s ↦ rw (s, keep) (s, keep_plain h)
  ]

  next_hop-KeepsSecrets :
      (first : w.Url) (h : Hop w) (hr : HopResponse) (loc : w.Url)
      → KeepsSecrets first h
      → KeepsSecrets first (next_hop w h hr loc)
  unfolding next_hop
  next_hop-KeepsSecrets first h hr loc kept = elim (Bool-cases (w.host loc == w.host h.url)) [
    | inr f ↦ rw (f, next_hop) (inr (keep_plain h.headers))
    | inl f ↦ elim kept [
      | inl same ↦ inl ((==_iff (w.host loc) (w.host h.url)).0 f ∙ same)
      | inr plain ↦ rw (f, next_hop) (inr plain)
    ]
  ]

  -- A sensitive header is never sent to a host other than that of the first request: if this holds
  -- of the logged requests and the first hop is the one that the loop starts with, then it holds of
  -- every request that is logged when the loop ends.
  pub loop-KeepsSecrets :
      (fuel : ℕ) (p : Progress w e)
      → All (KeepsSecrets p.cur.url) p.state.log
      → All (KeepsSecrets p.cur.url) (memory_of (loop w e fuel 0 p)).log
  loop-KeepsSecrets fuel p old =
      loop-All (KeepsSecrets p.cur.url) (KeepsSecrets p.cur.url) (λ h scope kept. kept)
        (next_hop-KeepsSecrets p.cur.url) fuel 0 p (inl refl) old

  -- The budget: the requests sent and the slots that are left.
  abbrev pub weight : Memory w → ℕ
  weight m = length m.log + slots m.budget

  weight-Round :
      (most fuel idx : ℕ) (p : Progress w e)
      → weight p.state ≤ most
      → (s : Step w e) → Round w e idx p s
      → Then w e (λ end. weight (memory_of end) ≤ most) (λ p. weight p.state ≤ most) s
  weight-Round most fuel idx p h (stop p') (inl (_, _, (same, fewer))) =
      rw same (omega (arith, h, fewer))
  weight-Round most fuel idx p h (stop p') (inr (_, (_, log, slot))) =
      rw log (omega (arith, h, slot))
  weight-Round most fuel idx p h (deny d m) (_, (same, fewer)) = rw same (omega (arith, h, fewer))
  weight-Round most fuel idx p h (fail m) (_, log, slot) = rw log (omega (arith, h, slot))
  weight-Round most fuel idx p h (go p') (_, _, _, (_, log, slot)) = rw log (omega (arith, h, slot))

  -- The requests that the loop sends and the slots that it leaves are together no more than the
  -- slots there were, so the requests never exceed the budget.
  pub loop_within_budget :
      (fuel idx : ℕ) (p : Progress w e) → weight (memory_of (loop w e fuel idx p)) ≤ weight p.state
  loop_within_budget fuel idx p =
      loop_induction w e (λ end. weight (memory_of end) ≤ weight p.state)
        (λ _ _ p'. weight p'.state ≤ weight p.state) (λ idx p' h. h) (weight-Round (weight p.state))
        fuel idx p (omega arith)
