-- ===== src/Mcp/Reading.antt =====
-- internal/mcp/server.go: the read-only tools, over the event store of internal/events. The cache that
-- loading the store may write is left out.
pub mod History
use hermes_security_skills.Base.{
  Bool, List, Option, Result, deny_if, err, if◌then◌else◌, map_err, none, ok, some, ◌>>=◌, ◌>>◌,
  ◌||◌,
}
use hermes_security_skills.Base.Int.{lebℤ, pos, ℤ}
use hermes_security_skills.Base.Text.{Text, codes, is_blank, trim_space, ◌==◌}
use hermes_security_skills.Capability.{Capability}
use hermes_security_skills.Document.{Fields, get_field, int_value}
use hermes_security_skills.Events.{
  EventCodec, EventEntry, EventError, ListFilter, bad_base64, bad_evidence, build_index,
  invalid_ref, list_events_of, no_digest, not_encodable, tampered, unknown_ref, unreadable_evidence,
}
use hermes_security_skills.Events.Comparing.{Comparison, compare_evidence}
use hermes_security_skills.Events.Json.{JsonDifference, json_diff}
use hermes_security_skills.Events.Reading.{EvidenceDetail, Found, inspect_evidence}
use hermes_security_skills.Mcp.{
  DenyReason, Moment, RpcError, Server, Stop, World, audit_decision, deny_stop, internal_error,
  invalid_params, rpc_stop, text_arg,
}
use hermes_security_skills.Mcp.Checks.{check_abort}
use hermes_security_skills.Registry.{ref}

-- The evidence directory: its files in the order of their names, as they are read for the index, the
-- cache, and what is found under a name later.
pub record EvidenceDir : Type 0 where
  pub codec : EventCodec
  pub evidence_files : List (Text × Option Text)
  pub cache : Option Text
  pub cache_writable : Bool
  pub find_file : Text → Found

-- The statuses of a call.
pub data CallResult : Type 0 where
  denied_call : DenyReason → CallResult
  error_call : CallResult
  forwarded_call : Text → Text → Fields → CallResult
  stub_call : Text → Text → CallResult
  history : List EventEntry → CallResult
  exchange : EvidenceDetail → CallResult
  comparison : Comparison → CallResult
  differences : List JsonDifference → CallResult

-- mapEventsErr
abbrev pub map_events_err : EventError → RpcError
map_events_err invalid_ref = invalid_params
map_events_err unknown_ref = invalid_params
map_events_err unreadable_evidence = internal_error
map_events_err bad_evidence = internal_error
map_events_err no_digest = internal_error
map_events_err not_encodable = internal_error
map_events_err tampered = internal_error
map_events_err bad_base64 = internal_error

-- eventStore
unfoldable pub open_events : Server → EvidenceDir → Result RpcError (List EventEntry)
open_events s d = do
  deny_if (is_blank s.evidence_dir) invalid_params
  map_err (λ _. internal_error) (build_index d.codec d.cache_writable d.evidence_files d.cache).0

unfoldable pub limit_arg : Fields → Result RpcError ℤ
unfolding get_field
limit_arg args = elim (get_field (codes "limit") args) [
  | none ↦ ok (pos 0)
  | some (int_value n) ↦ if lebℤ (pos 1) n then ok n else err invalid_params
  | some _ ↦ err invalid_params
]

unfoldable pub number_arg : Text → Fields → ℤ
unfolding get_field
number_arg key args = elim (get_field key args) [
  | none ↦ pos 0
  | some (int_value n) ↦ n
  | some _ ↦ pos 0
]

-- The filter of callListHistory.
abbrev pub filter_of : ℤ → Fields → ListFilter
filter_of limit args = record {
  limit = limit;
  url_substring = text_arg (codes "url_substring") args;
  method = text_arg (codes "method") args;
  status_min = number_arg (codes "status_min") args;
  case_id = trim_space (text_arg (codes "case") args);
}

-- callListHistory
unfoldable pub call_list_history : Server → EvidenceDir → Fields → Result RpcError CallResult
unfolding open_events limit_arg number_arg list_events_of
call_list_history s d args = do
  entries ← open_events s d
  limit ← limit_arg args
  ok (history (list_events_of entries (filter_of limit args)))

-- callInspectRequest
unfoldable pub call_inspect_request : Server → EvidenceDir → Fields → Result RpcError CallResult
unfolding open_events inspect_evidence
call_inspect_request s d args =
    let ref = text_arg (codes "evidence_ref") args in
    do
      entries ← open_events s d
      deny_if (is_blank ref) invalid_params
      detail ← map_err map_events_err (inspect_evidence d.codec entries d.find_file ref)
      ok (exchange detail)

-- callResponseComparison
unfoldable pub call_response_comparison : Server → EvidenceDir → Fields → Result RpcError CallResult
unfolding open_events compare_evidence
call_response_comparison s d args =
    let a = text_arg (codes "evidence_ref_a") args in
    let b = text_arg (codes "evidence_ref_b") args in
    do
      entries ← open_events s d
      deny_if (is_blank a || is_blank b) invalid_params
      found ← map_err map_events_err (compare_evidence d.codec entries d.find_file a b)
      ok (comparison found)

-- callJSONDiff
unfoldable pub call_json_diff : EvidenceDir → Fields → Result RpcError CallResult
unfolding get_field json_diff
call_json_diff d args = elim (get_field (codes "json_a") args) [
  | none ↦ err invalid_params
  | some a ↦ elim (get_field (codes "json_b") args) [
    | none ↦ err invalid_params
    | some b ↦ ok (differences (json_diff d.codec a b))
  ]
]

-- The switch of dispatchReadOnly.
unfoldable pub read_only_result :
    Server → EvidenceDir → Capability → Fields → Result RpcError CallResult
unfolding call_list_history call_inspect_request call_response_comparison call_json_diff
read_only_result s d c args =
    if c.name == codes "list_history"
    then call_list_history s d args
    else if c.name == codes "inspect_request"
    then call_inspect_request s d args
    else if c.name == codes "response_comparison"
    then call_response_comparison s d args
    else if c.name == codes "json_diff"
    then call_json_diff d args
    else ok (stub_call c.name c.default_provider)

-- The word that the audit entry of a result has.
abbrev pub decision_of : CallResult → Text
decision_of (denied_call _) = codes "denied"
decision_of error_call = codes "error"
decision_of (forwarded_call _ _ _) = codes "forwarded"
decision_of (stub_call _ _) = codes "stub"
decision_of (history _) = codes "observed"
decision_of (exchange _) = codes "observed"
decision_of (comparison _) = codes "observed"
decision_of (differences _) = codes "observed"

-- An answer with its audit entry; an error of JSON-RPC has none.
unfoldable pub answer_with :
    Server
    → Text
    → Option Text
    → Result RpcError CallResult
    → World
    → Result RpcError CallResult × World
answer_with s tool url (err e) w = (err e, w)
answer_with s tool url (ok r) w = (ok r, audit_decision s tool (decision_of r) url w)

-- An early return of toolsCall or dispatchReadOnly.
abbrev pub stopped : Stop → Result RpcError CallResult
stopped (rpc_stop e) = err e
stopped (deny_stop why) = ok (denied_call why)

-- dispatchReadOnly
unfoldable pub dispatch_read_only :
    Server
    → Moment
    → EvidenceDir
    → Capability
    → Text
    → Fields
    → World
    → Result RpcError CallResult × World
unfolding read_only_result answer_with
dispatch_read_only s m d c tool args w =
    elim (check_abort s m.jobs (trim_space (text_arg (codes "case") args))) [
      | err halt ↦ answer_with s tool none (stopped halt) w
      | ok _ ↦ answer_with s tool none (read_only_result s d c args) w
    ]
