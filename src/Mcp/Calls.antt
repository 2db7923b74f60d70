-- ===== src/Mcp/Calls.antt =====
-- internal/mcp/server.go: toolsCall, from the name of the tool to the request that goes to the proxy.
pub mod Checked
pub mod Licensed
pub mod Unsent
use hermes_security_skills.Base.{
  List, Option, Result, [], eqb, err, if◌then◌else◌, ltb, map_some, none, not, ok, some, ℕ, ◌++◌,
  ◌||◌, ◌∷◌,
}
use hermes_security_skills.Base.Text.{Text, codes, is_blank, trim_space, ◌==◌}
use hermes_security_skills.Capability.{Capability, resolve_capability}
use hermes_security_skills.Document.{
  Fields, field, get_field, map_value, nil_value, no_fields, string_value,
}
use hermes_security_skills.Mcp.{
  Moment, ProxyReply, ProxyRequest, RpcError, Server, World, capability_is_critical, invalid_params,
  proxy_answered, text_arg, undecodable, unreachable,
}
use hermes_security_skills.Mcp.Checks.{Call, gate, prepare}
use hermes_security_skills.Mcp.Reading.{
  CallResult, EvidenceDir, answer_with, denied_call, dispatch_read_only, error_call, forwarded_call,
  stopped,
}
use hermes_security_skills.Risk.{level_critical}

-- The parameters of the request, as json.Unmarshal reads them.
pub data Params : Type 0 where
  no_params bad_params : Params
  call_params : Text → Fields → Params

-- The loop of headersFromArgs.
unfoldable pub header_texts : Fields → Option (List (Text × Text))
header_texts no_fields = some []
header_texts (field k (string_value v) rest) = map_some (λ hs. (k, v) ∷ hs) (header_texts rest)
header_texts (field k _ rest) = none

-- headersFromArgs; none is its error.
unfoldable pub headers_from_args : Fields → Option (List (Text × Text))
unfolding get_field header_texts
headers_from_args args = elim (get_field (codes "headers") args) [
  | none ↦ some []
  | some nil_value ↦ some []
  | some (map_value hs) ↦ header_texts hs
  | some _ ↦ none
]

-- strings.TrimRight(s, "/")
abbrev pub put_unless_slash : ℕ → Text → Text
put_unless_slash c [] = if eqb c b'/' then [] else c ∷ []
put_unless_slash c (d ∷ s) = c ∷ d ∷ s

unfoldable pub trim_slashes : Text → Text
trim_slashes [] = []
trim_slashes (c ∷ s) = put_unless_slash c (trim_slashes s)

unfoldable pub endpoint : Server → Text
unfolding trim_slashes
endpoint s = trim_slashes s.proxy_url ++ codes "/execute"

-- The reply of the proxy, of which forwardToProxy returns only a status from 200 to 299.
unfoldable pub proxy_result : ProxyReply → Option Fields
proxy_result unreachable = none
proxy_result undecodable = none
proxy_result (proxy_answered status out) =
    if ltb status 200 || ltb 299 status then none else some out

abbrev pub request_for : Call → Fields → List (Text × Text) → ProxyRequest
request_for call args headers = record {
  url = call.url;
  method = call.method;
  headers = headers;
  body = text_arg (codes "body") args;
  case_label = call.case_id;
}

-- forwardToProxy, and the answer that toolsCall makes of it.
unfoldable pub forward :
    Server → Moment → Capability → Text → ProxyRequest → World → Result RpcError CallResult × World
unfolding endpoint proxy_result answer_with
forward s m c tool r w =
    let w' = record w { sent = (endpoint s, r) ∷ w.sent } in
    elim (proxy_result (m.proxy (endpoint s) r)) [
      | none ↦ answer_with s tool (some r.url) (ok error_call) w'
      | some out ↦
          answer_with s tool (some r.url) (ok (forwarded_call c.name c.default_provider out)) w'
    ]

-- (5) Dispatch: the headers are read only here.
unfoldable pub dispatch :
    Server → Moment → Capability → Text → Fields → Call → World → Result RpcError CallResult × World
unfolding headers_from_args forward
dispatch s m c tool args call w = elim (headers_from_args args) [
  | none ↦ (err invalid_params, w)
  | some headers ↦ forward s m c tool (request_for call args headers) w
]

-- The URL of an audit entry; an error of JSON-RPC has no entry.
abbrev pub audit_url : Fields → Option Text
audit_url args = some (trim_space (text_arg (codes "url") args))

-- toolsCall for an active operation.
unfoldable pub active_call :
    Server → Moment → Capability → Text → Fields → World → Result RpcError CallResult × World
unfolding prepare gate dispatch answer_with text_arg
active_call s m c tool args w = elim (prepare s m c args) [
  | err halt ↦ answer_with s tool (audit_url args) (stopped halt) w
  | ok call ↦
      let (let_through, file) = gate s m c call w.approvals in
      let w' = record w { approvals = file } in
      elim let_through [
        | err halt ↦ answer_with s tool (audit_url args) (stopped halt) w'
        | ok _ ↦ dispatch s m c tool args call w'
      ]
]

-- toolsCall for a capability of the registry.
unfoldable pub capability_call :
    Server
    → Moment
    → EvidenceDir
    → Capability
    → Text
    → Fields
    → World
    → Result RpcError CallResult × World
unfolding active_call dispatch_read_only answer_with
capability_call s m events c tool args w =
    if c.risk == level_critical
    then answer_with s tool none (ok (denied_call capability_is_critical)) w
    else if not c.requires_network
    then dispatch_read_only s m events c tool args w
    else active_call s m c tool args w

unfoldable pub named_call :
    Server → Moment → EvidenceDir → Text → Fields → World → Result RpcError CallResult × World
unfolding capability_call
named_call s m events tool args w =
    if is_blank tool then (err invalid_params, w) else elim (resolve_capability s.registry tool) [
      | err _ ↦ (err invalid_params, w)
      | ok c ↦ capability_call s m events c tool args w
    ]

-- toolsCall
unfoldable pub tools_call :
    Server → Moment → EvidenceDir → Params → World → Result RpcError CallResult × World
unfolding named_call
tools_call s m events no_params w = named_call s m events [] no_fields w
tools_call s m events bad_params w = (err invalid_params, w)
tools_call s m events (call_params tool args) w = named_call s m events tool args w
