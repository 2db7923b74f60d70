-- ===== src/Mcp/Calls/Licensed.antt =====
-- internal/mcp/server.go: what stands behind each request that toolsCall lets go to the proxy.
use mathlib.Core.Path.{subst}
use hermes_security_skills.Base.{
  Bool-cases, List, Option, Option-cases, Result, Result-cases, err, inl, inr, none, ok, refl, some,
  sym, true, ◌∷◌, ◌≡◌, ◌≢◌, ◌⊎◌,
}
use hermes_security_skills.Base.Text.{Text, codes, is_blank, trim_space}
use hermes_security_skills.Base.Text.Laws.{==_cases}
use hermes_security_skills.Capability.{Capability, resolve_capability}
use hermes_security_skills.Document.{Fields}
use hermes_security_skills.Mcp.{
  Moment, ProxyRequest, RpcError, Server, World, audit_decision, capability_is_critical, text_arg,
}
use hermes_security_skills.Mcp.Calls.{
  Params, active_call, audit_url, bad_params, call_params, capability_call, dispatch, endpoint,
  forward, headers_from_args, named_call, no_params, proxy_result, request_for, tools_call,
}
use hermes_security_skills.Mcp.Calls.Checked.{
  IsAllowed, IsChecked, gate-IsAllowed, prepare-IsChecked,
}
use hermes_security_skills.Mcp.Checks.{Call, check_abort, gate, prepare}
use hermes_security_skills.Mcp.Reading.{
  CallResult, EvidenceDir, answer_with, decision_of, denied_call, dispatch_read_only, error_call,
  forwarded_call, read_only_result, stopped,
}
use hermes_security_skills.Risk.{level_critical}

-- An audit entry changes neither the approvals nor what was sent.
audit_decision-keeps :
    (s : Server) (tool decision : Text) (url : Option Text) (w : World)
    → ((audit_decision s tool decision url w).sent ≡ w.sent)
      × ((audit_decision s tool decision url w).approvals ≡ w.approvals)
unfolding audit_decision
audit_decision-keeps s tool decision url w = elim (Bool-cases s.has_audit) [
  | inl e ↦ rw (e, audit_decision) (refl, refl)
  | inr e ↦ rw (e, audit_decision) (refl, refl)
]

pub answer_with-keeps :
    (s : Server) (tool : Text) (url : Option Text) (r : Result RpcError CallResult) (w : World)
    → ((answer_with s tool url r w).1.sent ≡ w.sent)
      × ((answer_with s tool url r w).1.approvals ≡ w.approvals)
unfolding answer_with
answer_with-keeps s tool url (err e) w = (refl, refl)
answer_with-keeps s tool url (ok r) w = audit_decision-keeps s tool (decision_of r) url w

forward-sends :
    (s : Server) (m : Moment) (c : Capability) (tool : Text) (r : ProxyRequest) (w : World)
    → ((forward s m c tool r w).1.sent ≡ (endpoint s, r) ∷ w.sent)
      × ((forward s m c tool r w).1.approvals ≡ w.approvals)
unfolding forward
forward-sends s m c tool r w = elim (Option-cases (proxy_result (m.proxy (endpoint s) r))) [
  | inl e ↦ rw (e, forward) (answer_with-keeps s tool (some r.url) (ok error_call) _)
  | inr (out, e) ↦
      rw (e, forward)
        (answer_with-keeps s tool (some r.url) (ok (forwarded_call c.name c.default_provider out))
          _)
]

-- The request that went to the proxy, and what let it through.
pub record IsSent (s : Server) (m : Moment) (c : Capability) (args : Fields) (w w' : World)
    : Type 0 where
  pub call : Call
  pub headers : List (Text × Text)
  pub was_read : headers_from_args args ≡ some headers
  pub checked : IsChecked s m c args call
  pub allowed : IsAllowed s m c call w.approvals w'.approvals
  pub sent : w'.sent ≡ (endpoint s, request_for call args headers) ∷ w.sent

active_call-IsSent :
    (s : Server) (m : Moment) (c : Capability) (tool : Text) (args : Fields) (w : World)
    → ((active_call s m c tool args w).1.sent ≡ w.sent)
      ⊎ IsSent s m c args w (active_call s m c tool args w).1
unfolding active_call dispatch
active_call-IsSent s m c tool args w = elim (Result-cases (prepare s m c args)) [
  | inr (halt, e) ↦
      rw (e, active_call) (inl (answer_with-keeps s tool (audit_url args) (stopped halt) w).0)
  | inl (call, e) ↦ elim (Result-cases (gate s m c call w.approvals).0) [
    | inr (halt, f) ↦
        rw (e, f, active_call) (inl (answer_with-keeps s tool (audit_url args) (stopped halt) _).0)
    | inl (tt, f) ↦ elim (Option-cases (headers_from_args args)) [
      | inl g ↦ rw (e, f, g, active_call, dispatch) (inl refl)
      | inr (headers, g) ↦
          let w' = record w { approvals = (gate s m c call w.approvals).1 } in
          let (sending, keeping) = forward-sends s m c tool (request_for call args headers) w' in
          rw (e, f, g, active_call, dispatch)
            (inr (record {
              call = call;
              headers = headers;
              was_read = g;
              checked = prepare-IsChecked s m c args call e;
              allowed =
                  subst (IsAllowed s m c call w.approvals) (sym keeping)
                    (gate-IsAllowed s m c call w.approvals f);
              sent = sending;
            }))
    ]
  ]
]

-- Nothing was sent, or one request of an active call of a capability of the registry.
abbrev pub IsLicensed : Server → Moment → Params → World → World → Type 0
IsLicensed s m params w w' =
    (w'.sent ≡ w.sent)
    ⊎ ((tool : Text) × (args : Fields) × (c : Capability) × (params ≡ call_params tool args)
        × (resolve_capability s.registry tool ≡ ok c)
        × (c.risk ≢ level_critical)
        × (c.requires_network ≡ true)
        × IsSent s m c args w w')

dispatch_read_only-keeps :
    (s : Server) (m : Moment) (events : EvidenceDir) (c : Capability) (tool : Text) (args : Fields)
    (w : World)
    → ((dispatch_read_only s m events c tool args w).1.sent ≡ w.sent)
      × ((dispatch_read_only s m events c tool args w).1.approvals ≡ w.approvals)
unfolding dispatch_read_only
dispatch_read_only-keeps s m events c tool args w =
    elim (Result-cases (check_abort s m.jobs (trim_space (text_arg (codes "case") args)))) [
      | inr (halt, e) ↦ rw (e, dispatch_read_only) (answer_with-keeps s tool none (stopped halt) w)
      | inl (tt, e) ↦
          rw (e, dispatch_read_only)
            (answer_with-keeps s tool none (read_only_result s events c args) w)
    ]

named_call-IsLicensed :
    (s : Server) (m : Moment) (events : EvidenceDir) (tool : Text) (args : Fields) (w : World)
    → IsLicensed s m (call_params tool args) w (named_call s m events tool args w).1
unfolding named_call capability_call
named_call-IsLicensed s m events tool args w = elim (Bool-cases (is_blank tool)) [
  | inl e ↦ rw (e, named_call) (inl refl)
  | inr e ↦ elim (Result-cases (resolve_capability s.registry tool)) [
    | inr (_, f) ↦ rw (e, f, named_call) (inl refl)
    | inl (c, f) ↦ elim (==_cases c.risk level_critical) [
      | inl (g, _) ↦
          rw (e, f, g, named_call, capability_call)
            (inl (answer_with-keeps s tool none (ok (denied_call capability_is_critical)) w).0)
      | inr (g, tame) ↦ elim (Bool-cases c.requires_network) [
        | inr n ↦
            rw (e, f, g, n, named_call, capability_call)
              (inl (dispatch_read_only-keeps s m events c tool args w).0)
        | inl n ↦ elim (active_call-IsSent s m c tool args w) [
          | inl same ↦ rw (e, f, g, n, named_call, capability_call) (inl same)
          | inr sending ↦
              rw (e, f, g, n, named_call, capability_call)
                (inr (tool, args, c, refl, f, tame, n, sending))
        ]
      ]
    ]
  ]
]

-- A call sends nothing, or one request; and that one is for a capability of the registry that is
-- not critical and goes to the network, within the scope where the capability requires it, for a
-- case that is not aborted where it names one, and with an action of the policy that is automatic, or
-- that wants an approval: then an approval that FindActive found is consumed.
pub tools_call-IsLicensed :
    (s : Server) (m : Moment) (events : EvidenceDir) (params : Params) (w : World)
    → IsLicensed s m params w (tools_call s m events params w).1
unfolding tools_call named_call trim_space
tools_call-IsLicensed s m events no_params w = inl refl
tools_call-IsLicensed s m events bad_params w = inl refl
tools_call-IsLicensed s m events (call_params tool args) w =
    named_call-IsLicensed s m events tool args w
