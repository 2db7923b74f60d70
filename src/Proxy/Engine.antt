-- ===== src/Proxy/Engine.antt =====
-- internal/proxycore/engine.go: Execute, which replays one request and follows its redirects under
-- the policy. The network, the clock, the URL package, the rate limiter and the evidence directory
-- are the parameter `World`; latencies and the texts of errors are not modelled.
pub mod Loop
pub mod Execute
pub mod Create
use hermes_security_skills.Base.{
  Bool, List, Option, [], all, any, eqb, false, if◌then◌else◌, keep, length, ltb, none, not, some,
  suc, true, zero, ℕ, ◌&&◌, ◌*◌, ◌^◌, ◌||◌, ◌∷◌,
}
use hermes_security_skills.Approval.{Time}
use hermes_security_skills.Base.Int.{lebℤ, ltbℤ, pos, ℤ}
use hermes_security_skills.Base.Text.{Text, codes, is_empty, trim_space, ◌==◌}
use hermes_security_skills.Proxy.Bundle.{Bundle, max_body_bytes_or_default}
use hermes_security_skills.Proxy.Headers.{Header, is_sensitive_header}
use hermes_security_skills.Proxy.Limits.{Budget}
use hermes_security_skills.Registry.{ref, resolve}
use hermes_security_skills.Scope.Allowlist.{Url}

abbrev pub max_redirect_hops : ℕ
max_redirect_hops = 10

abbrev pub max_store_body_bytes : ℕ
max_store_body_bytes = 8 * 2 ^ 20

pub record Request : Type 0 where
  pub url : Text
  pub method : Text
  pub headers : List (Text × Text)
  pub body : List ℕ
  pub case_id : Text

pub record Response : Type 0 where
  pub status : ℕ
  pub headers : Header
  pub body : List ℕ
  pub truncated : Bool

pub data Reason : Type 0 where
  no_reason out_of_scope budget_used_up rate_limited max_hops : Reason
  no_method method_not_allowed no_url bad_url bad_case bad_header_name bad_header_value : Reason

pub record RedirectInfo : Type 0 where
  pub followed : Bool
  pub blocked : Bool
  pub location : Text
  pub hops : ℕ
  pub reason : Reason

pub record HopSummary : Type 0 where
  pub url : Text
  pub method : Text
  pub status : ℕ

-- A response as it comes off the wire, and as roundTrip returns it.
pub record RawReply : Type 0 where
  pub status : ℕ
  pub header : Header
  pub stream : List ℕ

pub record HopResponse : Type 0 where
  pub status : ℕ
  pub header : Header
  pub body : List ℕ
  pub hard_trunc : Bool

-- EvidenceRecord, with its request and its response flattened; base64 is not modelled.
pub record Evidence : Type 0 where
  pub case_id : Text
  pub request_method : Text
  pub request_url : Text
  pub request_headers : Header
  pub request_body : List ℕ
  pub response_status : ℕ
  pub response_headers : Header
  pub response_body : List ℕ
  pub response_hard_truncated : Bool
  pub redirect : RedirectInfo
  pub hops : List HopSummary

-- What one execution meets: net/url, the rate limiter, and by the number of the hop the time and the
-- reply, which is none where the request or the reading of its response fails. A write of evidence gives
-- the hash, or none where it fails.
pub record World : Type 1 where
  pub Url : Type 0
  pub parse_url : Text → Option Url
  pub scheme : Url → Text
  pub host : Url → Text
  pub show : Url → Text
  pub resolve : Url → Url → Url
  pub Limit : Type 0
  pub allow : Time → Limit → Bool × Limit
  pub clock : ℕ → Time
  pub reply : ℕ → Text → Url → Header → List ℕ → Option RawReply
  pub write_evidence : ℕ → Evidence → Option Text

-- The fixed part of an engine.
pub record Engine : Type 0 where
  pub bundle : Bundle
  pub in_scope : Text → Bool
  pub max_body : ℕ

-- min of the bundle's limit and the flag, where a flag of 0 or less means none.
unfoldable pub effective_max_body : Bundle → ℤ → ℤ
effective_max_body b flag =
    let most = max_body_bytes_or_default b in
    if not (lebℤ flag (pos 0)) && ltbℤ flag most then flag else most

unfoldable pub is_redirect_status : ℕ → Bool
is_redirect_status code =
    eqb code 301 || eqb code 302 || eqb code 303 || eqb code 307 || eqb code 308

unfoldable pub case_rune : ℕ → Bool
case_rune r = not ((ltb r b'a' || ltb b'z' r) && (ltb r b'0' || ltb b'9' r) && not (eqb r b'-'))

unfoldable pub valid_case_id : Text → Bool
unfolding case_rune all
valid_case_id s = if eqb (length s) 0 || ltb 64 (length s) then false else all case_rune s

unfoldable pub is_allowed_method : Text → Bool
unfolding any
is_allowed_method m =
    any (λ w. m == w)
      (codes "GET"
        ∷ codes "HEAD"
        ∷ codes "OPTIONS"
        ∷ codes "POST"
        ∷ codes "PUT"
        ∷ codes "PATCH"
        ∷ codes "DELETE"
        ∷ [])

-- http.Header.Get of a canonical name: the first value, or the empty text.
unfoldable pub get_header : Text → Header → Text
get_header name [] = []
get_header name ((k, []) ∷ h) = if k == name then [] else get_header name h
get_header name ((k, v ∷ vs) ∷ h) = if k == name then v else get_header name h

unfoldable pub take_bytes : ℕ → List ℕ → List ℕ
take_bytes zero s = []
take_bytes (suc n) [] = []
take_bytes (suc n) (c ∷ s) = c ∷ take_bytes n s

module _ (w : World) where
  pub record Hop : Type 0 where
    pub method : Text
    pub url : w.Url
    pub headers : Header
    pub body : List ℕ

  -- `log` holds each request that was handed to the HTTP client, the latest first.
  pub record Memory : Type 0 where
    pub budget : Budget
    pub limit : w.Limit
    pub log : List Hop
    pub seq : ℕ
    pub files : List Evidence

  -- The response body is cut at the hard limit.
  unfoldable pub cut : RawReply → HopResponse
  unfolding take_bytes
  cut r =
      if ltb max_store_body_bytes (length r.stream)
      then record {
        status = r.status;
        header = r.header;
        body = take_bytes max_store_body_bytes r.stream;
        hard_trunc = true;
      }
      else record { status = r.status; header = r.header; body = r.stream; hard_trunc = false }

  unfoldable pub round_trip : ℕ → Hop → Option HopResponse
  unfolding cut
  round_trip idx h = elim (w.reply idx h.method h.url h.headers h.body) [
    | none ↦ none
    | some r ↦ some (cut r)
  ]

  unfoldable pub location_for : HopResponse → w.Url → Option w.Url
  unfolding get_header
  location_for hr base =
      let loc = trim_space (get_header (codes "Location") hr.header) in
      if is_empty loc
      then none
      else elim (w.parse_url loc) [ none ↦ none | some ref ↦ some (w.resolve base ref) ]

  -- Whether the method becomes GET and the body is dropped.
  unfoldable pub becomes_get : Hop → HopResponse → Bool
  becomes_get cur hr =
      eqb hr.status 303
      || (eqb hr.status 301 || eqb hr.status 302)
        && not (cur.method == codes "GET")
        && not (cur.method == codes "HEAD")

  unfoldable pub next_hop : Hop → HopResponse → w.Url → Hop
  unfolding becomes_get keep
  next_hop cur hr loc = record {
    method = if becomes_get cur hr then codes "GET" else cur.method;
    url = loc;
    headers =
        if w.host loc == w.host cur.url
        then cur.headers
        else keep (λ e. not (is_sensitive_header e.0)) cur.headers;
    body = if becomes_get cur hr then [] else cur.body;
  }
