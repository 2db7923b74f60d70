-- ===== src/Mcp/Serving.antt =====
-- internal/mcp/server.go, internal/mcp/jsonrpc.go: the lines of JSON-RPC, one request or notification
-- each, and what is answered. Encoding a response does not fail.
pub mod Answers
use hermes_security_skills.Base.{
  Bool, List, Option, Result, [], err, false, if◌then◌else◌, none, not, ok, some, true, ◌&&◌, ◌||◌,
  ◌∷◌,
}
use hermes_security_skills.Base.Text.{Text, codes, is_blank, is_empty, trim_space, ◌==◌}
use hermes_security_skills.Mcp.{
  Moment, RpcError, Server, World, invalid_request, method_not_found, parse_error,
}
use hermes_security_skills.Mcp.Calls.{Params, tools_call}
use hermes_security_skills.Mcp.Reading.{CallResult, EvidenceDir}
use hermes_security_skills.Mcp.Tools.{ToolDef, tools_list}

-- rpcRequest; the id is the text it has in the line.
pub record Request : Type 0 where
  pub jsonrpc : Text
  pub request_id : Text
  pub rpc_method : Text
  pub params : Params

pub data RpcResult : Type 0 where
  initialized : Text → RpcResult
  pong : RpcResult
  tools : List ToolDef → RpcResult
  called : CallResult → RpcResult

-- rpcResponse
pub record Response : Type 0 where
  pub response_id : Text
  pub outcome : Result RpcError RpcResult

abbrev pub null_id : Text
null_id = codes "null"

unfoldable pub is_notification : Request → Bool
is_notification r = is_empty r.request_id || trim_space r.request_id == null_id

abbrev pub called_result : Result RpcError CallResult × World → Result RpcError RpcResult × World
called_result (err e, w) = (err e, w)
called_result (ok c, w) = (ok (called c), w)

-- The switch of handleLine on the method.
unfoldable pub handle_method :
    Server → Moment → EvidenceDir → Request → World → Result RpcError RpcResult × World
unfolding tools_call tools_list
handle_method s m events r w =
    if r.rpc_method == codes "initialize"
    then (ok (initialized s.version), w)
    else if r.rpc_method == codes "ping"
    then (ok pong, w)
    else if r.rpc_method == codes "tools/list"
    then (ok (tools (tools_list s)), w)
    else if r.rpc_method == codes "tools/call"
    then called_result (tools_call s m events r.params w)
    else (err method_not_found, w)

abbrev pub response_with : Text → Result RpcError RpcResult × World → Option Response × World
response_with id (r, w) = (some (record { response_id = id; outcome = r }), w)

-- handleLine after the line was decoded.
unfoldable pub handle_request :
    Server → Moment → EvidenceDir → Request → World → Option Response × World
unfolding is_notification handle_method
handle_request s m events r w =
    if not (is_empty r.jsonrpc) && not (r.jsonrpc == codes "2.0")
    then if is_notification r
      then (none, w)
      else response_with r.request_id (err invalid_request, w)
    else if is_notification r
    then (none, w)
    else response_with r.request_id (handle_method s m events r w)

-- handleLine; `decode` is json.Decoder on the line.
unfoldable pub handle_line :
    (Text → Option Request) → Server → Moment → EvidenceDir → Text → World → Option Response × World
unfolding handle_request
handle_line decode s m events line w = elim (decode line) [
  | none ↦ response_with null_id (err parse_error, w)
  | some r ↦ handle_request s m events r w
]

abbrev pub and_response : Option Response → List Response × World → List Response × World
and_response none (out, w) = (out, w)
and_response (some r) (out, w) = (r ∷ out, w)

-- The loop of Serve over the lines, each with what it meets outside: the responses, in order.
unfoldable pub serve :
    (Text → Option Request)
    → Server
    → List (Text × Moment × EvidenceDir)
    → World
    → List Response × World
unfolding handle_line
serve decode s [] w = ([], w)
serve decode s ((line, m, events) ∷ rest) w = elim (is_blank line) [
  | true ↦ serve decode s rest w
  | false ↦
      let (response, w') = handle_line decode s m events (trim_space line) w in
      and_response response (serve decode s rest w')
]
