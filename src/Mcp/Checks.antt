-- ===== src/Mcp/Checks.antt =====
-- internal/mcp/server.go: the checks of toolsCall on an operation that goes to a target.
use hermes_security_skills.Base.{
  List, Option, Result, [], deny_if, err, false, if◌then◌else◌, map_err, map_some, none, not, ok,
  some, true, ℕ, ◌&&◌, ◌>>=◌, ◌>>◌, ◌||◌, ◌∷◌,
}
use hermes_security_skills.Approval.Store.{File, Query, Record, StoreError, consume, find_active}
use hermes_security_skills.Base.Text.{
  Text, codes, is_blank, is_empty, to_lower, to_upper, trim_space, trim_suffix, ◌==◌,
}
use hermes_security_skills.Capability.{Capability}
use hermes_security_skills.Document.{
  Fields, Items, get_field, item, no_items, read_document, seq_value, string_value,
}
use hermes_security_skills.Files.{Tree}
use hermes_security_skills.Jobs.{is_aborted, valid_id}
use hermes_security_skills.Mcp.{
  DenyReason, Moment, Server, Stop, aborted_case, bad_case, bad_scope_file, bad_scope_rules,
  deny_stop, internal_error, invalid_params, no_active_approval, no_approval_store, no_case,
  no_scope_rules, not_consumed, out_of_scope, policy_disabled, rpc_stop, store_failed, text_arg,
  unparsable_url,
}
use hermes_security_skills.Policy.{evaluate}
use hermes_security_skills.Risk.{
  Operation, action_approval_required, action_automatic, action_conditional, action_disabled,
  classify, max_level,
}
use hermes_security_skills.Scope.Allowlist.{HostPort, ScopeError, Url, new_checker}
use hermes_security_skills.Scope.Check.{check}

unfoldable pub host_entries : Items → Option (List Text)
host_entries no_items = some []
host_entries (item (string_value s) rest) =
    if is_blank s then none else map_some (λ hosts. s ∷ hosts) (host_entries rest)
host_entries (item _ rest) = none

-- loadAllowedHosts
unfoldable pub load_allowed_hosts :
    (List ℕ → Option Fields) → Option (List ℕ) → Result Stop (List Text)
unfolding get_field host_entries
load_allowed_hosts parse file = do
  doc ← read_document parse file (deny_stop bad_scope_file) (deny_stop bad_scope_file)
  elim (get_field (codes "allowed_hosts") doc) [
    | some (seq_value (item v rest)) ↦ elim (host_entries (item v rest)) [
      | none ↦ err (deny_stop bad_scope_file)
      | some hosts ↦ ok hosts
    ]
    | _ ↦ err (deny_stop bad_scope_file)
  ]

abbrev pub deny_as : (ScopeError → DenyReason) → ScopeError → Stop
deny_as f e = deny_stop (f e)

-- The checker of the configuration, or the one of the scope file.
unfoldable pub scope_checker : Server → Result Stop (Option (List HostPort))
unfolding load_allowed_hosts
scope_checker s = elim s.scope [
  | some entries ↦ ok (some entries)
  | none ↦ elim s.scope_file [
    | none ↦ ok none
    | some file ↦ do
      hosts ← load_allowed_hosts s.parse_yaml file
      entries ← map_err (deny_as bad_scope_rules) (new_checker s.net hosts)
      ok (some entries)
  ]
]

abbrev pub in_checker : Server → Option (List HostPort) → Text → Result Stop (Unit {0})
in_checker s none url = err (deny_stop no_scope_rules)
in_checker s (some entries) url = map_err (deny_as out_of_scope) (check s.net entries url)

-- (1) Scope check.
unfoldable pub check_scope : Server → Capability → Text → Result Stop (Unit {0})
unfolding scope_checker
check_scope s c url = do
  checker ← scope_checker s
  if c.requires_scope then in_checker s checker url else ok tt

abbrev pub abort_error : Text → Tree → Result Stop (Unit {0})
abort_error case_id jobs = do
  deny_if (not (valid_id case_id)) (deny_stop bad_case)
  deny_if (is_aborted case_id jobs) (deny_stop aborted_case)

-- (2) Kill switch.
unfoldable pub check_abort : Server → Tree → Text → Result Stop (Unit {0})
check_abort s jobs case_id =
    if not (is_empty case_id) && not (is_empty s.jobs_dir) then abort_error case_id jobs else ok tt

abbrev pub replay_of : Text → Operation
replay_of method = record {
  method = method;
  replay = true;
  upload = false;
  concurrency = false;
  credential_attack = false;
  exfiltration = false;
  persistence = false;
  lateral_movement = false;
}

-- (3) Risk classification and the action of the policy.
unfoldable pub decide_action : Server → Capability → Text → Result Stop Text
decide_action s c method = do
  level ← map_err (λ _. rpc_stop internal_error) (max_level (classify (replay_of method)) c.risk)
  map_err (λ _. rpc_stop internal_error) (evaluate s.policy level)

-- An operation that passed the checks (1) and (2), with its action.
pub record Call : Type 0 where
  pub url : Text
  pub method : Text
  pub case_id : Text
  pub action : Text

-- toolsCall for an active operation, from its arguments to the action.
unfoldable pub prepare : Server → Moment → Capability → Fields → Result Stop Call
unfolding text_arg check_scope check_abort decide_action
prepare s m c args =
    let url = trim_space (text_arg (codes "url") args) in
    let method = to_upper (trim_space (text_arg (codes "method") args)) in
    let case_id = trim_space (text_arg (codes "case") args) in
    do
      deny_if (is_empty url || is_empty method) (rpc_stop invalid_params)
      check_scope s c url
      check_abort s m.jobs case_id
      action ← decide_action s c method
      ok (record { url = url; method = method; case_id = case_id; action = action })

-- What checkApproval asks the store for.
abbrev pub query_for : Server → Capability → Call → Text → Query
query_for s c call hostname = record {
  capability = c.name;
  case_id = call.case_id;
  host = trim_suffix b'.' (to_lower hostname);
  method = call.method;
  path = if is_empty (s.url_path call.url) then codes "/" else s.url_path call.url;
}

abbrev pub call_url : Server → Call → Result DenyReason Url
call_url s call = elim (s.net.parse_url (trim_space call.url)) [
  | none ↦ err unparsable_url
  | some u ↦ ok u
]

abbrev pub found_approval : Result StoreError (Option Record) → Result DenyReason Record
found_approval (err e) = err (store_failed e)
found_approval (ok none) = err no_active_approval
found_approval (ok (some r)) = ok r

-- checkApproval
unfoldable pub check_approval :
    Server → Moment → Capability → Call → File → Result DenyReason Record
check_approval s m c call file = do
  deny_if (not s.has_store) no_approval_store
  u ← call_url s call
  found_approval (find_active m.find_env (query_for s c call u.hostname) file)

-- Consume of the approval that was found.
abbrev pub use_approval : Moment → File → Result DenyReason Record → Result Stop (Unit {0}) × File
use_approval m file (err reason_given) = (err (deny_stop reason_given), file)
use_approval m file (ok r) =
    let (used_up, file') = consume m.consume_env r.id file in
    (map_err (λ e. deny_stop (not_consumed e)) used_up, file')

-- (4) Action gate.
unfoldable pub gate : Server → Moment → Capability → Call → File → Result Stop (Unit {0}) × File
unfolding check_approval
gate s m c call file =
    if call.action == action_automatic
    then (ok tt, file)
    else if call.action == action_conditional || call.action == action_approval_required
    then if is_empty call.case_id
      then (err (deny_stop no_case), file)
      else use_approval m file (check_approval s m c call file)
    else if call.action == action_disabled
    then (err (deny_stop policy_disabled), file)
    else (err (rpc_stop internal_error), file)
