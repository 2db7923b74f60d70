-- ===== src/Proxy/Tests.antt =====
-- The theorems on the proxy at concrete requests. A URL is its text, whose first character is its
-- host; the first reply redirects to another host and the second one is plain.
mod Creating
use Prim.Native.Nat.{min}
use hermes_security_skills.Base.{
  All, List, [], all, any, arith, eqb, false, if◌then◌else◌, keep, ltb, ok, refl, some, true, ℕ,
  ◌*◌, ◌+◌, ◌-◌, ◌||◌, ◌∷◌, ◌≡◌, ◌≤◌,
}
use hermes_security_skills.Base.Int.{pos, pos_part, ◌-ℤ◌}
use hermes_security_skills.Base.Text.{
  Text, codes, contains, contains_rune, has_prefix, is_space, lower_rune, to_lower, to_upper,
  trim_left, trim_right, trim_space, upper_rune, ◌==◌,
}
use hermes_security_skills.Proxy.Bundle.{Bundle, Codec, load_bundle, validate_bundle}
use hermes_security_skills.Proxy.Bundle.Validated.{IsValidBundle, load_bundle-IsValidBundle}
use hermes_security_skills.Proxy.Engine.{
  Engine, Hop, Memory, RawReply, Request, World, becomes_get, case_rune, cut, get_header,
  is_allowed_method, is_redirect_status, location_for, next_hop, round_trip, take_bytes,
  valid_case_id,
}
use hermes_security_skills.Proxy.Engine.Execute.{
  accept, check_headers, conclude, deliver, evidence_of, execute, inline_body, parse_target,
  result_of, write,
}
use hermes_security_skills.Proxy.Engine.Execute.Delivery.{Delivered, execute-Delivered}
use hermes_security_skills.Proxy.Engine.Execute.Results.{
  Returned, execute-InScope, execute-KeepsSecrets, execute-Returned, execute_within_budget,
  outcome_memory,
}
use hermes_security_skills.Proxy.Engine.Loop.{
  after_response, loop, refuse, round, transmit, with_budget, with_limiter,
}
use hermes_security_skills.Proxy.Engine.Loop.Policy.{InScope, KeepsSecrets, weight}
use hermes_security_skills.Proxy.Headers.{
  canonical_from, canonical_key, is_hop_by_hop, is_sensitive_header, is_token, redact_headers,
  sanitize_from, sanitize_headers, set_header, valid_header_field_name, valid_header_field_value,
  valid_value_rune,
}
use hermes_security_skills.Proxy.Limits.{Float, TokenBucket, take}
use hermes_security_skills.Registry.{ref, resolve}
use hermes_security_skills.Scope.Address.{lower_byte}
use hermes_security_skills.Scope.Allowlist.{Url}

abbrev redirecting : RawReply
redirecting = record {
  status = 302;
  header = (codes "Location", codes "b" ∷ []) ∷ (codes "Set-Cookie", codes "s" ∷ []) ∷ [];
  stream = [];
}

abbrev plain : RawReply
plain = record {
  status = 200;
  header = (codes "Age", codes "1" ∷ []) ∷ [];
  stream = 104 ∷ 105 ∷ 33 ∷ [];
}

abbrev pub sample_world : World
sample_world = record {
  Url = Text;
  parse_url = λ s. some s;
  scheme = λ u. codes "http";
  host = λ u. take_bytes 1 u;
  show = λ u. u;
  resolve = λ base ref. ref;
  Limit = ℕ;
  allow = λ now n. (true, n);
  clock = λ idx. idx;
  reply = λ idx method u header body. if eqb idx 0 then some redirecting else some plain;
  write_evidence = λ seq rec. some (codes "sha");
}

abbrev pub sample_bundle : Bundle
sample_bundle = record {
  version = pos 1;
  allowed_hosts = codes "a" ∷ codes "b" ∷ [];
  max_requests = pos 5;
  rate_limit_rps = pos 1;
  follow_redirects = true;
  timeout_seconds = pos 0;
  max_body_bytes = pos 0;
}

abbrev engine : Engine
engine = record {
  bundle = sample_bundle;
  in_scope = λ u. u == codes "a" || u == codes "b";
  max_body = 2;
}

abbrev idle : Memory sample_world
idle = record { budget = record { left = pos 5 }; limit = 0; log = []; seq = 0; files = [] }

abbrev pub sample_request : Request
sample_request = record {
  url = codes "a";
  method = codes "post";
  headers = (codes "Authorization", codes "x") ∷ (codes "Accept", codes "y") ∷ [];
  body = 1 ∷ [];
  case_id = codes "case-1";
}

abbrev first_hop : Hop sample_world
first_hop = record {
  method = codes "POST";
  url = codes "a";
  headers = (codes "Accept", codes "y" ∷ []) ∷ (codes "Authorization", codes "x" ∷ []) ∷ [];
  body = 1 ∷ [];
}

running : Unit {0}
unfolding execute accept parse_target check_headers is_allowed_method valid_case_id case_rune
    valid_header_field_name valid_header_field_value valid_value_rune is_token contains_rune
    sanitize_headers sanitize_from set_header canonical_key canonical_from lower_byte is_hop_by_hop
    any all keep ◌==◌ to_upper upper_rune to_lower lower_rune trim_space trim_left trim_right
    is_space conclude deliver write result_of evidence_of inline_body take_bytes redact_headers
    is_sensitive_header contains has_prefix loop round with_budget with_limiter transmit
    after_response refuse take round_trip cut is_redirect_status location_for get_header next_hop
    becomes_get ◌-ℤ◌
running = tt

accepted : accept sample_world sample_request ≡ ok first_hop
unfolding running
accepted = refl

-- Two requests go out, the second one as a GET to the other host and without the credentials.
abbrev second_hop : Hop sample_world
second_hop = record {
  method = codes "GET";
  url = codes "b";
  headers = (codes "Accept", codes "y" ∷ []) ∷ [];
  body = [];
}

executed :
    (outcome_memory sample_world engine (execute sample_world engine sample_request idle)).log
    ≡ second_hop ∷ first_hop ∷ []
unfolding running
executed = refl

execute-InScope_example :
    All
      (InScope sample_world engine)
      (outcome_memory sample_world engine (execute sample_world engine sample_request idle)).log
execute-InScope_example = execute-InScope sample_world engine sample_request idle tt

execute-KeepsSecrets_example :
    All
      (KeepsSecrets sample_world engine (codes "a"))
      (outcome_memory sample_world engine (execute sample_world engine sample_request idle)).log
execute-KeepsSecrets_example =
    execute-KeepsSecrets sample_world engine sample_request idle first_hop accepted tt

execute_within_budget_example :
    weight sample_world engine
      (outcome_memory sample_world engine (execute sample_world engine sample_request idle))
    ≤ weight sample_world engine idle
execute_within_budget_example = execute_within_budget sample_world engine sample_request idle

execute-Returned_example :
    Returned sample_world engine 0 (execute sample_world engine sample_request idle)
execute-Returned_example = execute-Returned sample_world engine sample_request idle

execute-Delivered_example :
    Delivered sample_world engine sample_request (execute sample_world engine sample_request idle)
execute-Delivered_example = execute-Delivered sample_world engine sample_request idle

-- Whole numbers in place of the floats.
abbrev whole : Float
whole = record {
  F = ℕ;
  of_int = λ z. pos_part z;
  seconds = λ z. pos_part z;
  add = λ x y. x + y;
  sub = λ x y. x - y;
  mul = λ x y. x * y;
  less = λ x y. ltb x y;
}

sub_one : (x b : ℕ) → ltb b x ≡ false → ltb b (x - 1) ≡ false
sub_one x b h = ground arith

abbrev bucket : TokenBucket whole
bucket = record { rate = 2; burst = 2; tokens = 1; last = 10 }

abbrev codec : Codec
codec = record { sha256_hex = λ bytes. codes "Ab"; decode = λ bytes. some sample_bundle }

loaded : load_bundle codec (some (1 ∷ [])) (codes " aB") ≡ ok sample_bundle
unfolding running load_bundle validate_bundle
loaded = refl

load_bundle-IsValidBundle_example :
    IsValidBundle sample_bundle
    × ((bytes : List ℕ) × (some (1 ∷ []) ≡ some bytes)
        × (codec.decode bytes ≡ some sample_bundle)
        × (to_lower (codec.sha256_hex bytes) ≡ to_lower (trim_space (codes " aB"))))
load_bundle-IsValidBundle_example =
    load_bundle-IsValidBundle codec (some (1 ∷ [])) (codes " aB") sample_bundle loaded
