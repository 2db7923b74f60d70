-- ===== src/Proxy/Engine/Loop.antt =====
-- internal/proxycore/engine.go: the loop of Execute over the hops.
pub mod Rounds
pub mod Policy
pub mod Hops
use hermes_security_skills.Base.{
  List, Option, [], eqb, if◌then◌else◌, ltb, none, not, some, suc, true, zero, ℕ, ◌++◌, ◌+◌, ◌||◌,
  ◌∷◌,
}
use hermes_security_skills.Proxy.Engine.{
  Engine, Hop, HopResponse, HopSummary, Memory, Reason, RedirectInfo, World, budget_used_up,
  is_redirect_status, location_for, max_hops, max_redirect_hops, next_hop, out_of_scope,
  rate_limited, round_trip,
}
use hermes_security_skills.Proxy.Limits.{Budget, take}

pub record Denial : Type 0 where
  pub http : ℕ
  pub reason : Reason

module _ (w : World) (e : Engine) where
  -- The variables of the loop, with the state of the engine.
  pub record Progress : Type 0 where
    pub cur : Hop w
    pub hops : List HopSummary
    pub redirect : RedirectInfo
    pub final : Option HopResponse
    pub executed : ℕ
    pub state : Memory w

  -- How one round ends: it leaves the loop, returns from Execute, or goes on.
  pub data Step : Type 0 where
    stop : Progress → Step
    deny : Denial → Memory w → Step
    fail : Memory w → Step
    go : Progress → Step

  abbrev pub blocked : Reason → Progress → Progress
  blocked reason p = record p { redirect = record p.redirect { blocked = true; reason = reason } }

  -- A refusal: it ends Execute at the first hop, and the loop at a later one.
  unfoldable pub refuse : ℕ → ℕ → Reason → Progress → Step
  refuse idx http reason p =
      if eqb idx 0
      then deny (record { http = http; reason = reason }) p.state
      else stop (blocked reason p)

  abbrev pub received : ℕ → HopResponse → Progress → Progress
  received idx hr p = record p {
    executed = p.executed + 1;
    redirect = record p.redirect { followed = p.redirect.followed || ltb 0 idx };
    hops =
        p.hops ++ record { url = w.show p.cur.url; method = p.cur.method; status = hr.status } ∷ [];
    final = some hr;
  }

  abbrev pub logged : Progress → Progress
  logged p = record p { state = record p.state { log = p.cur ∷ p.state.log } }

  abbrev pub limited : w.Limit → Progress → Progress
  limited limit p = record p { state = record p.state { limit = limit } }

  abbrev pub spent : Budget → Progress → Progress
  spent budget p = record p { state = record p.state { budget = budget } }

  -- What follows the response of a hop.
  unfoldable pub after_response : ℕ → HopResponse → Progress → Step
  unfolding is_redirect_status location_for next_hop
  after_response idx hr p =
      if not (is_redirect_status hr.status) then stop p else elim (location_for w hr p.cur.url) [
        | none ↦ stop p
        | some loc ↦
            let p' = record p { redirect = record p.redirect { location = w.show loc } } in
            if not e.bundle.follow_redirects
            then stop p'
            else if ltb max_redirect_hops (idx + 1)
            then stop (blocked max_hops p')
            else go (record p' { cur = next_hop w p.cur hr loc })
      ]

  -- The request goes out.
  unfoldable pub transmit : ℕ → Progress → Step
  unfolding after_response round_trip
  transmit idx p = elim (round_trip w idx p.cur) [
    | none ↦ fail (logged p).state
    | some hr ↦ after_response idx hr (received idx hr (logged p))
  ]

  unfoldable pub with_limiter : ℕ → Progress → Step
  unfolding transmit refuse
  with_limiter idx p =
      let (allowed, limit) = w.allow (w.clock idx) p.state.limit in
      if not allowed
      then refuse idx 429 rate_limited (limited limit p)
      else transmit idx (limited limit p)

  unfoldable pub with_budget : ℕ → Progress → Step
  unfolding with_limiter refuse take
  with_budget idx p =
      let (got, budget) = take p.state.budget in
      if not got
      then refuse idx 429 budget_used_up (spent budget p)
      else with_limiter idx (spent budget p)

  -- One round: scope, budget, rate limit, and the request.
  unfoldable pub round : ℕ → Progress → Step
  unfolding with_budget refuse
  round idx p =
      if not (e.in_scope (w.show p.cur.url))
      then refuse idx 403 out_of_scope p
      else with_budget idx p

  pub data Ending : Type 0 where
    loop_stopped : Progress → Ending
    loop_denied : Denial → Memory w → Ending
    loop_failed : Memory w → Ending
    loop_out_of_fuel : Memory w → Ending

  unfoldable pub loop : ℕ → ℕ → Progress → Ending
  unfolding round
  loop zero idx p = loop_out_of_fuel p.state
  loop (suc fuel) idx p = elim (round idx p) [
    | stop p' ↦ loop_stopped p'
    | deny d s ↦ loop_denied d s
    | fail s ↦ loop_failed s
    | go p' ↦ loop fuel (idx + 1) p'
  ]
