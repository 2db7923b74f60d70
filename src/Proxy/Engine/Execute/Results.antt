-- ===== src/Proxy/Engine/Execute/Results.antt =====
-- internal/proxycore/engine.go: what holds however Execute returns.
use hermes_security_skills.Base.{
  All, Option-cases, Result-cases, arith, inl, inr, length, ok, refl, suc, ℕ, ◌+◌, ◌≡◌, ◌≤◌,
}
use hermes_security_skills.Proxy.Engine.{
  Engine, Evidence, Hop, HopResponse, Memory, Request, World, max_redirect_hops,
}
use hermes_security_skills.Proxy.Engine.Execute.{
  Outcome, accept, conclude, crashed, deliver, done, evidence_failed, evidence_of, execute,
  rejected, request_failed, start, write,
}
use hermes_security_skills.Proxy.Engine.Loop.{
  Ending, Progress, loop, loop_denied, loop_failed, loop_out_of_fuel, loop_stopped,
}
use hermes_security_skills.Proxy.Engine.Loop.Hops.{Ended, Few, loop-Ended}
use hermes_security_skills.Proxy.Engine.Loop.Policy.{
  InScope, KeepsSecrets, loop-InScope, loop-KeepsSecrets, loop_within_budget, memory_of, weight,
}

module _ (w : World) (e : Engine) where
  abbrev pub outcome_memory : Outcome w e → Memory w
  outcome_memory (rejected d m) = m
  outcome_memory (request_failed m) = m
  outcome_memory (evidence_failed m) = m
  outcome_memory (done r m) = m
  outcome_memory (crashed m) = m

  abbrev SameRequests : Memory w → Memory w → Type 0
  SameRequests m n = (m.log ≡ n.log) × (m.budget ≡ n.budget)

  write-SameRequests : (rec : Evidence) (m : Memory w) → SameRequests (write w e rec m).1 m
  unfolding write
  write-SameRequests rec m = elim (Option-cases (w.write_evidence (m.seq + 1) rec)) [
    | inl g ↦ rw (g, write) (refl, refl)
    | inr (sha, g) ↦ rw (g, write) (refl, refl)
  ]

  deliver-write :
      (req : Request) (p : Progress w e) (hr : HopResponse)
      → outcome_memory (deliver w e req p hr) ≡ (write w e (evidence_of w e req p hr) p.state).1
  unfolding deliver
  deliver-write req p hr = elim (Option-cases (write w e (evidence_of w e req p hr) p.state).0) [
    | inl g ↦ rw (g, deliver) refl
    | inr (sha, g) ↦ rw (g, deliver) refl
  ]

  conclude-SameRequests :
      (req : Request) (end : Ending w e)
      → SameRequests (outcome_memory (conclude w e req end)) (memory_of w e end)
  unfolding conclude
  conclude-SameRequests req (loop_stopped p) = elim (Option-cases p.final) [
    | inl f ↦ rw (f, conclude) (refl, refl)
    | inr (hr, f) ↦
        simp (f, conclude, deliver-write req p hr)
          (write-SameRequests (evidence_of w e req p hr) p.state)
  ]
  conclude-SameRequests req (loop_denied d m) = (refl, refl)
  conclude-SameRequests req (loop_failed m) = (refl, refl)
  conclude-SameRequests req (loop_out_of_fuel m) = (refl, refl)

  -- However Execute returns, every request that it sent passed the scope check, if this holds of the
  -- requests sent before.
  pub execute-InScope :
      (req : Request) (m : Memory w)
      → All (InScope w e) m.log
      → All (InScope w e) (outcome_memory (execute w e req m)).log
  unfolding execute
  execute-InScope req m old = elim (Result-cases (accept w req)) [
    | inr (reason, f) ↦ rw (f, execute) old
    | inl (first, f) ↦
        rw (f, execute)
          (rw (conclude-SameRequests req (loop w e (suc max_redirect_hops) 0 (start w e first m))).0
            (loop-InScope w e (suc max_redirect_hops) 0 (start w e first m) old))
  ]

  -- However Execute returns, the requests sent so far and the slots left are together no more than
  -- before it.
  pub execute_within_budget :
      (req : Request) (m : Memory w)
      → weight w e (outcome_memory (execute w e req m)) ≤ weight w e m
  unfolding execute
  execute_within_budget req m = elim (Result-cases (accept w req)) [
    | inr (why, f) ↦ rw (f, execute) (omega arith)
    | inl (first, f) ↦
        let end = loop w e (suc max_redirect_hops) 0 (start w e first m) in
        let (log, budget) = conclude-SameRequests req end in
        rw (f, execute)
          (rw (log, budget) (loop_within_budget w e (suc max_redirect_hops) 0 (start w e first m)))
  ]

  -- How Execute may return, with what it then has sent: nothing before a denial.
  abbrev pub Returned : ℕ → Outcome w e → Type 0
  Returned sent (rejected d m) = length m.log ≡ sent
  Returned sent (request_failed m) = Few w e sent m
  Returned sent (evidence_failed m) = Few w e sent m
  Returned sent (done r m) = Few w e sent m
  Returned sent (crashed m) = ⊥

  deliver-Returned :
      (sent : ℕ) (req : Request) (p : Progress w e) (hr : HopResponse)
      → Few w e sent p.state
      → Returned sent (deliver w e req p hr)
  unfolding deliver
  deliver-Returned sent req p hr few =
      let rec = evidence_of w e req p hr in
      let few' : Few w e sent (write w e rec p.state).1 =
        rw (write-SameRequests rec p.state).0 few in
      elim (Option-cases (write w e rec p.state).0) [
        | inl g ↦ rw (g, deliver) few'
        | inr (sha, g) ↦ rw (g, deliver) few'
      ]

  conclude-Returned :
      (sent : ℕ) (req : Request) (end : Ending w e)
      → Ended w e sent end
      → Returned sent (conclude w e req end)
  unfolding conclude
  conclude-Returned sent req (loop_stopped p) (few, (hr, f)) =
      rw (f, conclude) (deliver-Returned sent req p hr few)
  conclude-Returned sent req (loop_denied d m) same = same
  conclude-Returned sent req (loop_failed m) few = few
  conclude-Returned sent req (loop_out_of_fuel m) never = absurd never

  -- Execute always returns: a denial, before which it sent nothing, an error, or a result; it never
  -- uses a response that is nil. It sends at most maxRedirectHops + 1 requests, and at most one
  -- where the bundle does not follow redirects.
  pub execute-Returned :
      (req : Request) (m : Memory w) → Returned (length m.log) (execute w e req m)
  unfolding execute
  execute-Returned req m = elim (Result-cases (accept w req)) [
    | inr (why, f) ↦ rw (f, execute) refl
    | inl (first, f) ↦
        rw (f, execute)
          (conclude-Returned (length m.log) req
            (loop w e (suc max_redirect_hops) 0 (start w e first m))
            (loop-Ended w e (length m.log) (start w e first m) refl))
  ]

  -- For a request that is accepted, no sensitive header is sent to a host other than that of the
  -- first hop, however Execute returns: every logged request to another host carries none, if this
  -- holds of the requests logged before.
  pub execute-KeepsSecrets :
      (req : Request) (m : Memory w) (first : Hop w)
      → accept w req ≡ ok first
      → All (KeepsSecrets w e first.url) m.log
      → All (KeepsSecrets w e first.url) (outcome_memory (execute w e req m)).log
  unfolding execute
  execute-KeepsSecrets req m first f old =
      rw (f, execute)
        (rw (conclude-SameRequests req (loop w e (suc max_redirect_hops) 0 (start w e first m))).0
          (loop-KeepsSecrets w e (suc max_redirect_hops) (start w e first m) old))
