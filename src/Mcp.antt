-- ===== src/Mcp.antt =====
-- internal/mcp: the control plane, a server of the Model Context Protocol. This file has its
-- configuration and its state. JSON is decoded where the code reads it: its numbers are integers
-- here. The texts of the messages are left out.
pub mod Checks
pub mod Reading
pub mod Calls
pub mod Serving
pub mod Tools
pub mod Tests
use hermes_security_skills.Base.{
  Bool, List, Option, [], if◌then◌else◌, map_some, none, some, ℕ, ◌∷◌,
}
use hermes_security_skills.Approval.Store.{Env, File, StoreError}
use hermes_security_skills.Base.Text.{Text, codes, trim_space}
use hermes_security_skills.Capability.{Capabilities}
use hermes_security_skills.Document.{Fields, get_field, string_value}
use hermes_security_skills.Files.{Tree}
use hermes_security_skills.Policy.{Policy}
use hermes_security_skills.Scope.Allowlist.{HostPort, Net, ScopeError}

-- The errors of JSON-RPC, by code.
pub data RpcError : Type 0 where
  parse_error invalid_request method_not_found invalid_params internal_error : RpcError

-- Why a call is answered with the status "denied".
pub data DenyReason : Type 0 where
  capability_is_critical bad_scope_file no_scope_rules bad_case aborted_case : DenyReason
  bad_scope_rules out_of_scope : ScopeError → DenyReason
  no_case no_approval_store unparsable_url no_active_approval policy_disabled : DenyReason
  store_failed not_consumed : StoreError → DenyReason

pub data Stop : Type 0 where
  rpc_stop : RpcError → Stop
  deny_stop : DenyReason → Stop

-- Config. `scope_file` is none where no path is given, and holds what ReadFile gives otherwise;
-- `parse_yaml` is yamlmini.Parse; `url_path` is EscapedPath of the URL; `bare_url` is its String
-- without query and fragment.
pub record Server : Type 0 where
  pub registry : Capabilities
  pub policy : Policy
  pub scope : Option (List HostPort)
  pub scope_file : Option (Option (List ℕ))
  pub parse_yaml : List ℕ → Option Fields
  pub net : Net
  pub url_path : Text → Text
  pub bare_url : Text → Option Text
  pub has_store : Bool
  pub jobs_dir : Text
  pub proxy_url : Text
  pub evidence_dir : Text
  pub version : Text
  pub has_audit : Bool

-- proxyRequest, and what comes back for it. An address of the proxy that http.NewRequest refuses is
-- not reachable.
pub record ProxyRequest : Type 0 where
  pub url : Text
  pub method : Text
  pub headers : List (Text × Text)
  pub body : Text
  pub case_label : Text

pub data ProxyReply : Type 0 where
  unreachable undecodable : ProxyReply
  proxy_answered : ℕ → Fields → ProxyReply

-- What a call takes from outside: the clock of the approval store as FindActive and as Consume read
-- it, the directory of the jobs, and the proxy.
pub record Moment : Type 0 where
  pub find_env : Env
  pub consume_env : Env
  pub jobs : Tree
  pub proxy : Text → ProxyRequest → ProxyReply

pub record AuditCall : Type 0 where
  pub tool : Text
  pub decision : Text
  pub audited_url : Option Text

-- The file of the approvals, the requests that went to an endpoint, and the calls of Audit; the
-- latest comes first.
pub record World : Type 0 where
  pub approvals : File
  pub sent : List (Text × ProxyRequest)
  pub audited : List AuditCall

-- redactURL
unfoldable pub redact_url : Server → Text → Text
redact_url s raw = elim (s.bare_url (trim_space raw)) [ none ↦ codes "(unparseable)" | some u ↦ u ]

-- auditDecision
unfoldable pub audit_decision : Server → Text → Text → Option Text → World → World
unfolding redact_url
audit_decision s tool decision raw_url w =
    let url = map_some (redact_url s) raw_url in
    if s.has_audit
    then record w {
      audited = record { tool = tool; decision = decision; audited_url = url } ∷ w.audited;
    }
    else w

-- An argument that is a text; anything else reads as the empty text.
unfoldable pub text_arg : Text → Fields → Text
unfolding get_field
text_arg key args = elim (get_field key args) [
  | none ↦ []
  | some (string_value s) ↦ s
  | some _ ↦ []
]
