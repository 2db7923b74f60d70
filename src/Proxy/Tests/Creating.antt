-- ===== src/Proxy/Tests/Creating.antt =====
-- The theorem on an engine that NewEngine makes, at the bundle of two hosts.
use hermes_security_skills.Base.{
  All, List, [], all, any, false, length, none, ok, refl, some, true, ◌∷◌, ◌≡◌, ◌≤◌,
}
use hermes_security_skills.Base.Int.{pos, ℤ}
use hermes_security_skills.Base.Text.{
  codes, contains, contains_any, contains_rune, has_prefix, is_space, lower_rune, split, to_lower,
  trim_left, trim_right, trim_space, trim_suffix, ◌==◌,
}
use hermes_security_skills.Proxy.Bundle.{max_body_bytes_or_default}
use hermes_security_skills.Proxy.Engine.{Engine, Hop, effective_max_body}
use hermes_security_skills.Proxy.Engine.Create.{checker_for, fresh, new_engine, scope_allows}
use hermes_security_skills.Proxy.Engine.Create.Guarded.{new_engine-Guarded}
use hermes_security_skills.Proxy.Engine.Create.Limit.{IsLimited, new_engine-IsLimited}
use hermes_security_skills.Proxy.Engine.Execute.{execute}
use hermes_security_skills.Proxy.Engine.Execute.Results.{outcome_memory}
use hermes_security_skills.Proxy.Limits.{Budget, new_budget}
use hermes_security_skills.Proxy.Tests.{sample_bundle, sample_request, sample_world}
use hermes_security_skills.Scope.Address.{
  host_digits, join_parts, parse_host_number, parse_ip_literal, parse_ipv4_numeric,
}
use hermes_security_skills.Scope.Allowlist.{
  HostPort, Net, canonical_host, is_ascii, new_checker, parse_entry, split_entry, wildcard_of,
}
use hermes_security_skills.Scope.Check.{
  admit, check, default_port, deny_address, host_matches, locate, match_entries, port_matches,
  port_of, port_or, target,
}

abbrev net : Net
net = record {
  parse_url =
      λ s. some (record { scheme = codes "http"; has_user = false; hostname = s; port = [] });
  split_host_port = λ s. none;
  parse_addr = λ s. none;
  ip_string = λ ip. ip;
}

abbrev entries : List HostPort
entries =
    record { host = codes "a"; port = none; wild = false }
    ∷ record { host = codes "b"; port = none; wild = false }
    ∷ []

abbrev made : Engine × Budget × ℤ
made = (
  record { bundle = sample_bundle; in_scope = scope_allows net entries; max_body = 2 },
  record { left = pos 5 },
  pos 1,
)

making : Unit {0}
unfolding new_engine checker_for new_checker parse_entry split_entry canonical_host wildcard_of
    effective_max_body max_body_bytes_or_default new_budget scope_allows check target admit locate
    deny_address port_of port_or default_port match_entries host_matches port_matches
    parse_ip_literal parse_ipv4_numeric is_ascii to_lower lower_rune trim_space trim_left trim_right
    is_space trim_suffix contains contains_any contains_rune any all has_prefix ◌==◌ split
    parse_host_number join_parts host_digits
making = tt

created : new_engine net (some sample_bundle) true (pos 2) ≡ ok made
unfolding making
created = refl

allowed_host : scope_allows net entries (codes "b") ≡ true
unfolding making
allowed_host = refl

other_host : scope_allows net entries (codes "c") ≡ false
unfolding making
other_host = refl

new_engine-Guarded_example :
    (allowed : List HostPort) × (new_checker net sample_bundle.allowed_hosts ≡ ok allowed)
    × All
        (λ (h : Hop sample_world). check net allowed (sample_world.show h.url) ≡ ok tt)
        (outcome_memory sample_world made.0
          (execute sample_world made.0 sample_request (fresh sample_world made.1 0))).log
    × (length
          (outcome_memory sample_world made.0
            (execute sample_world made.0 sample_request (fresh sample_world made.1 0))).log
        ≤ 5)
new_engine-Guarded_example =
    new_engine-Guarded net sample_bundle true (pos 2) made sample_world 0 sample_request created

new_engine-IsLimited_example :
    IsLimited sample_world made.0 sample_bundle
      (pos 2)
      (execute sample_world made.0 sample_request (fresh sample_world made.1 0))
new_engine-IsLimited_example =
    new_engine-IsLimited net sample_bundle true (pos 2) made sample_world sample_request
      (fresh sample_world made.1 0) created
