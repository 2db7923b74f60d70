-- ===== src/Proxy/Engine/Create.antt =====
-- internal/proxycore/engine.go: NewEngine. The option Scope, which tests use in place of the checker,
-- is not modelled; whether the evidence directory could be made is an argument.
pub mod Limit
pub mod Guarded
use hermes_security_skills.Base.{
  Bool, List, Option, Result, [], deny_if, err, false, none, not, ok, some, true, ◌>>=◌, ◌>>◌,
}
use hermes_security_skills.Base.Int.{pos_part, ℤ}
use hermes_security_skills.Base.Text.{Text}
use hermes_security_skills.Proxy.Bundle.{Bundle}
use hermes_security_skills.Proxy.Engine.{Engine, Memory, World, effective_max_body}
use hermes_security_skills.Proxy.Limits.{Budget, new_budget}
use hermes_security_skills.Scope.Allowlist.{HostPort, Net, ScopeError, new_checker}
use hermes_security_skills.Scope.Check.{check}

pub data EngineError : Type 0 where
  no_bundle no_evidence_dir : EngineError
  bad_allowlist : ScopeError → EngineError

unfoldable pub scope_allows : Net → List HostPort → Text → Bool
unfolding check
scope_allows net allowed raw = elim (check net allowed raw) [ err _ ↦ false | ok _ ↦ true ]

unfoldable pub checker_for : Net → Bundle → Result EngineError (List HostPort)
unfolding new_checker
checker_for net b = elim (new_checker net b.allowed_hosts) [
  | err e ↦ err (bad_allowlist e)
  | ok es ↦ ok es
]

-- The engine with its budget, and the limit of the rate.
unfoldable pub new_engine :
    Net → Option Bundle → Bool → ℤ → Result EngineError (Engine × Budget × ℤ)
unfolding scope_allows checker_for effective_max_body new_budget
new_engine net none has_dir flag = err no_bundle
new_engine net (some b) has_dir flag = do
  allowed ← checker_for net b
  deny_if (not has_dir) no_evidence_dir
  ok (
    record {
      bundle = b;
      in_scope = scope_allows net allowed;
      max_body = pos_part (effective_max_body b flag);
    },
    new_budget b.max_requests,
    b.rate_limit_rps,
  )

-- The state of an engine that has not executed anything.
abbrev pub fresh : (w : World) → Budget → w.Limit → Memory w
fresh w budget limit = record { budget = budget; limit = limit; log = []; seq = 0; files = [] }
