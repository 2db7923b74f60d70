-- ===== src/Proxy/Engine/Execute.antt =====
-- internal/proxycore/engine.go: Execute, with Write of internal/proxycore/evidence.go. An evidence
-- file is named by its number.
pub mod Accepting
pub mod Results
pub mod Delivery
use hermes_security_skills.Base.{
  Bool, List, Option, Result, [], deny_if, err, false, if◌then◌else◌, length, ltb, none, not, ok,
  some, suc, true, ℕ, ◌&&◌, ◌+◌, ◌-◌, ◌>>=◌, ◌>>◌, ◌||◌, ◌∷◌,
}
use hermes_security_skills.Base.Text.{Text, is_empty, to_upper, trim_space}
use hermes_security_skills.Proxy.Engine.{
  Engine, Evidence, Hop, HopResponse, Memory, Reason, RedirectInfo, Request, Response, World,
  bad_case, bad_header_name, bad_header_value, bad_url, is_allowed_method, max_redirect_hops,
  method_not_allowed, no_method, no_reason, no_url, take_bytes, valid_case_id,
}
use hermes_security_skills.Proxy.Engine.Loop.{
  Denial, Ending, Progress, blocked, loop, loop_denied, loop_failed, loop_out_of_fuel, loop_stopped,
}
use hermes_security_skills.Proxy.Headers.{
  Header, redact_headers, sanitize_headers, valid_header_field_name, valid_header_field_value,
}
use hermes_security_skills.Scope.Allowlist.{Url}

pub record ExecuteResult : Type 0 where
  pub response : Response
  pub raw_headers : Header
  pub full_body : List ℕ
  pub evidence_ref : ℕ
  pub evidence_sha256 : Text
  pub redirect : RedirectInfo

abbrev pub method_of : Request → Text
method_of req = to_upper (trim_space req.method)

abbrev pub url_of : Request → Text
url_of req = trim_space req.url

-- The check of the headers, in the order in which Go visits the map.
unfoldable pub check_headers : List (Text × Text) → Result Reason (Unit {0})
check_headers [] = ok tt
check_headers ((name, value) ∷ rest) = do
  deny_if (not (valid_header_field_name name)) bad_header_name
  deny_if (not (valid_header_field_value value)) bad_header_value
  check_headers rest

module _ (w : World) where
  unfoldable pub parse_target : Text → Result Reason w.Url
  parse_target raw = elim (w.parse_url raw) [
    | none ↦ err bad_url
    | some u ↦ if is_empty (w.scheme u) || is_empty (w.host u) then err bad_url else ok u
  ]

  -- Execute up to the loop: the first hop, or the reason of a denial with status 400.
  unfoldable pub accept : Request → Result Reason (Hop w)
  unfolding parse_target check_headers
  accept req = do
    deny_if (is_empty (method_of req)) no_method
    deny_if (not (is_allowed_method (method_of req))) method_not_allowed
    deny_if (is_empty (url_of req)) no_url
    u ← parse_target (url_of req)
    deny_if (not (is_empty req.case_id) && not (valid_case_id req.case_id)) bad_case
    check_headers req.headers
    ok (record {
      method = method_of req;
      url = u;
      headers = sanitize_headers req.headers;
      body = req.body;
    })

  -- The first of the byte string, as long as the limit allows, and whether something was cut off.
  unfoldable pub inline_body : ℕ → List ℕ → List ℕ × Bool
  unfolding take_bytes
  inline_body most full =
      if ltb most (length full) then (take_bytes most full, true) else (full, false)

  module _ (e : Engine) where
    -- How Execute returns; `crashed` is the use of a response that is nil.
    pub data Outcome : Type 0 where
      rejected : Denial → Memory w → Outcome
      request_failed : Memory w → Outcome
      evidence_failed : Memory w → Outcome
      done : ExecuteResult → Memory w → Outcome
      crashed : Memory w → Outcome

    abbrev pub start : Hop w → Memory w → Progress w e
    start first m = record {
      cur = first;
      hops = [];
      redirect = record {
        followed = false;
        blocked = false;
        location = [];
        hops = 0;
        reason = no_reason;
      };
      final = none;
      executed = 0;
      state = m;
    }

    abbrev pub redirect_of : Progress w e → RedirectInfo
    redirect_of p = record p.redirect { hops = p.executed - 1 }

    unfoldable pub evidence_of : Request → Progress w e → HopResponse → Evidence
    unfolding redact_headers sanitize_headers
    evidence_of req p final = record {
      case_id = req.case_id;
      request_method = method_of req;
      request_url = url_of req;
      request_headers = redact_headers (sanitize_headers req.headers);
      request_body = req.body;
      response_status = final.status;
      response_headers = redact_headers final.header;
      response_body = final.body;
      response_hard_truncated = final.hard_trunc;
      redirect = redirect_of p;
      hops = p.hops;
    }

    unfoldable pub result_of : Progress w e → HopResponse → Text → ExecuteResult
    unfolding inline_body redact_headers
    result_of p final sha =
        let (inline, truncated) = inline_body e.max_body final.body in
        record {
          response = record {
            status = final.status;
            headers = redact_headers final.header;
            body = inline;
            truncated = truncated;
          };
          raw_headers = final.header;
          full_body = final.body;
          evidence_ref = p.state.seq + 1;
          evidence_sha256 = sha;
          redirect = redirect_of p;
        }

    -- Write: the number is used up even if the file is not written.
    unfoldable pub write : Evidence → Memory w → Option Text × Memory w
    write rec m =
        let m' = record m { seq = m.seq + 1 } in
        elim (w.write_evidence (m.seq + 1) rec) [
          | none ↦ (none, m')
          | some sha ↦ (some sha, record m' { files = rec ∷ m.files })
        ]

    -- Execute behind the loop.
    unfoldable pub deliver : Request → Progress w e → HopResponse → Outcome
    unfolding evidence_of result_of write
    deliver req p final =
        let (sha, m) = write (evidence_of req p final) p.state in
        elim sha [ none ↦ evidence_failed m | some sha ↦ done (result_of p final sha) m ]

    unfoldable pub conclude : Request → Ending w e → Outcome
    unfolding deliver
    conclude req (loop_stopped p) = elim p.final [
      | none ↦ crashed p.state
      | some final ↦ deliver req p final
    ]
    conclude req (loop_denied d m) = rejected d m
    conclude req (loop_failed m) = request_failed m
    conclude req (loop_out_of_fuel m) = crashed m

    unfoldable pub execute : Request → Memory w → Outcome
    unfolding accept conclude loop
    execute req m = elim (accept req) [
      | err reason ↦ rejected (record { http = 400; reason = reason }) m
      | ok first ↦ conclude req (loop w e (suc max_redirect_hops) 0 (start first m))
    ]
