-- ===== src/Mcp/Tests.antt =====
-- The theorems on the control plane at a concrete server.
use hermes_security_skills.Base.{
  List, Option, [], all, any, err, false, keep, length, none, ok, refl, some, true, ◌∷◌, ◌≡◌, ◌≢◌,
}
use hermes_security_skills.Approval.Store.{
  Env, File, Record, active_at, better, check_record, check_records, commit, consume, consume_in,
  consume_record, consumed, covers, find_active, find_from, read_locked, records, validate_record,
  write_locked,
}
use hermes_security_skills.Base.Int.{pos, ◌+ℤ◌, ◌-ℤ◌}
use hermes_security_skills.Base.Text.{
  Text, codes, contains, has_prefix, is_space, lower_rune, split, to_lower, to_upper, trim_left,
  trim_right, trim_space, trim_suffix, upper_rune, ◌==◌,
}
use hermes_security_skills.Capability.{get_cap, resolve_capability}
use hermes_security_skills.Capability.Tests.{registered, replay}
use hermes_security_skills.Document.{
  Fields, Value, bool_value, field, get_field, get_text, nil_value, no_fields, string_value,
}
use hermes_security_skills.Events.{
  build_index, cache_lines, cache_text, drop_first, fingerprint, fingerprint_text, insert_entry,
  list_events_of, parse_and_verify, passes, read_cache, read_cached_lines, read_files, sort_entries,
  verify_files,
}
use hermes_security_skills.Events.Reading.{no_bytes}
use hermes_security_skills.Events.Tests.{files_read, no_cache, one_entry, one_read, sample_codec}
use hermes_security_skills.Files.{entry_at, node_at, path_eq}
use hermes_security_skills.Jobs.{is_aborted, matches_id, valid_id}
use hermes_security_skills.Mcp.{
  Moment, Server, World, audit_decision, invalid_params, proxy_answered, redact_url, text_arg,
}
use hermes_security_skills.Mcp.Calls.{
  Params, active_call, call_params, capability_call, dispatch, endpoint, forward, header_texts,
  headers_from_args, named_call, proxy_result, tools_call, trim_slashes,
}
use hermes_security_skills.Mcp.Calls.Checked.{IsApproved}
use hermes_security_skills.Mcp.Calls.Licensed.{IsLicensed, tools_call-IsLicensed}
use hermes_security_skills.Mcp.Calls.Unsent.{active_call-IsApproved}
use hermes_security_skills.Mcp.Checks.{
  Call, check_abort, check_approval, check_scope, decide_action, gate, prepare, scope_checker,
}
use hermes_security_skills.Mcp.Reading.{
  EvidenceDir, answer_with, call_list_history, dispatch_read_only, history, limit_arg, number_arg,
  open_events,
}
use hermes_security_skills.Mcp.Reading.History.{IsHistory, call_list_history-IsHistory}
use hermes_security_skills.Mcp.Serving.{
  Request, handle_line, handle_method, handle_request, is_notification, serve,
}
use hermes_security_skills.Mcp.Serving.Answers.{
  IsAnswer, SendsJustified, handle_line-IsAnswer, serve-IsJustified,
}
use hermes_security_skills.Policy.{evaluate, is_valid_action}
use hermes_security_skills.Risk.{
  action_automatic, action_conditional, classify, default_action, level_rank, max_level,
  passive_methods,
}
use hermes_security_skills.Scope.Address.{parse_ip_literal}
use hermes_security_skills.Scope.Allowlist.{Net, Url, is_ascii}
use hermes_security_skills.Scope.Check.{
  admit, check, default_port, deny_address, host_matches, locate, match_entries, port_matches,
  port_of, port_or, target,
}

mcp : Unit {0}
unfolding serve handle_line handle_request handle_method is_notification tools_call named_call
    capability_call active_call prepare text_arg get_field check_scope scope_checker check
    match_entries host_matches port_matches target admit locate port_of port_or default_port
    deny_address parse_ip_literal is_ascii check_abort valid_id matches_id all is_aborted node_at
    entry_at path_eq decide_action classify passive_methods max_level level_rank evaluate
    is_valid_action get_text default_action gate check_approval find_active find_from covers
    active_at better read_locked check_records check_record validate_record has_prefix any consume
    consumed consume_in consume_record commit write_locked headers_from_args header_texts dispatch
    forward endpoint trim_slashes proxy_result answer_with audit_decision redact_url
    dispatch_read_only resolve_capability get_cap to_upper upper_rune to_lower lower_rune
    trim_suffix trim_space trim_left trim_right is_space ◌==◌ ◌+ℤ◌ ◌-ℤ◌
mcp = tt

abbrev target_url : Url
target_url = record {
  scheme = codes "https";
  has_user = false;
  hostname = codes "app.test";
  port = [];
}

abbrev net : Net
net = record {
  parse_url = λ s. some target_url;
  split_host_port = λ s. none;
  parse_addr = λ s. none;
  ip_string = λ ip. ip;
}

abbrev server : Server
server = record {
  registry = registered;
  policy = record { mapping = none; limits = none };
  scope = some (record { host = codes "app.test"; port = none; wild = false } ∷ []);
  scope_file = none;
  parse_yaml = λ bytes. none;
  net = net;
  url_path = λ u. codes "/a";
  bare_url = λ u. some u;
  has_store = true;
  jobs_dir = codes "jobs";
  proxy_url = codes "http://proxy/";
  evidence_dir = [];
  version = codes "0.1.0";
  has_audit = true;
}

abbrev grant : Record
grant = record {
  id = codes "r1";
  case_id = codes "case-1";
  capability = codes "request_replay";
  host = codes "app.test";
  method = codes "GET";
  path = codes "/a";
  max_requests = pos 1;
  account_ref = [];
  expires_at = 100;
  risk = codes "medium";
  created_at = 1;
  used = pos 0;
  is_revoked = false;
  revoked_at = 0;
  revoke_reason = [];
}

abbrev env : Env
env = record { now = 10; fresh_id = none; writable = true }

abbrev moment : Moment
moment = record {
  find_env = env;
  consume_env = env;
  jobs = [];
  proxy = λ endpoint r. proxy_answered 200 no_fields;
}

abbrev events : EvidenceDir
events = record {
  codec = sample_codec;
  evidence_files = (codes "evidence-1.json", some (codes "x")) ∷ [];
  cache = none;
  cache_writable = true;
  find_file = λ name. no_bytes;
}

abbrev world : World
world = record { approvals = records (grant ∷ []); sent = []; audited = [] }

abbrev with_headers : Value → Fields
with_headers headers = field (codes "url") (string_value (codes "https://app.test/a")) (
    field (codes "method") (string_value (codes "get")) (
      field (codes "case") (string_value (codes "case-1"))
        (field (codes "headers") headers no_fields)))

abbrev replayed : Params
replayed = call_params (codes "request_replay") (with_headers nil_value)

abbrev used_grant : File
used_grant = records (record grant { used = pos 1 } ∷ [])

-- The call goes through and uses the approval; a second one finds none.
forwarded : (tools_call server moment events replayed world).1.approvals ≡ used_grant
unfolding mcp
forwarded = refl

sent_once :
    length
      (tools_call server moment events replayed
        (tools_call server moment events replayed world).1).1.sent
    ≡ 1
unfolding mcp
sent_once = refl

tools_call-IsLicensed_example :
    IsLicensed server moment replayed world (tools_call server moment events replayed world).1
tools_call-IsLicensed_example = tools_call-IsLicensed server moment events replayed world

abbrev request : Request
request = record {
  jsonrpc = codes "2.0";
  request_id = codes "1";
  rpc_method = codes "tools/call";
  params = replayed;
}

abbrev decode : Text → Option Request
decode line = some request

abbrev session : List (Text × Moment × EvidenceDir)
session = (codes "x", moment, events) ∷ (codes "y", moment, events) ∷ []

serve-IsJustified_example :
    SendsJustified decode server session world (serve decode server session world).1
serve-IsJustified_example = serve-IsJustified decode server session world

handle_line-IsAnswer_example :
    IsAnswer (some request) (handle_line decode server moment events (codes "x") world) world
handle_line-IsAnswer_example = handle_line-IsAnswer decode server moment events (codes "x") world

abbrev malformed : Fields
malformed = with_headers (bool_value true)

abbrev replay_call : Call
replay_call = record {
  url = codes "https://app.test/a";
  method = codes "GET";
  case_id = codes "case-1";
  action = action_conditional;
}

call_prepared : prepare server moment replay malformed ≡ ok replay_call
unfolding mcp
call_prepared = refl

gate_open : (gate server moment replay replay_call world.approvals).0 ≡ ok tt
unfolding mcp
gate_open = refl

headers_refused : headers_from_args malformed ≡ none
unfolding mcp
headers_refused = refl

not_automatic : replay_call.action ≢ action_automatic
not_automatic e = cc

active_call-IsApproved_example :
    ((active_call server moment replay (codes "request_replay") malformed world).0
      ≡ err invalid_params)
    × ((active_call server moment replay (codes "request_replay") malformed world).1.sent
        ≡ world.sent)
    × IsApproved server moment replay replay_call world.approvals
        (active_call server moment replay (codes "request_replay") malformed world).1.approvals
active_call-IsApproved_example =
    active_call-IsApproved server moment replay (codes "request_replay") malformed world replay_call
      call_prepared gate_open not_automatic headers_refused

history_answered :
    call_list_history (record server { evidence_dir = codes "d" }) events no_fields
    ≡ ok (history (one_entry ∷ []))
unfolding call_list_history open_events build_index read_files fingerprint fingerprint_text
    read_cache read_cached_lines split verify_files parse_and_verify sort_entries insert_entry
    cache_text cache_lines list_events_of keep passes drop_first contains limit_arg number_arg
    get_field text_arg to_upper upper_rune to_lower lower_rune trim_space trim_left trim_right
    is_space ◌==◌
history_answered = refl

call_list_history-IsHistory_example : IsHistory sample_codec one_read no_fields (one_entry ∷ [])
call_list_history-IsHistory_example =
    call_list_history-IsHistory (record server { evidence_dir = codes "d" }) events no_fields
      one_read (one_entry ∷ []) files_read no_cache history_answered
