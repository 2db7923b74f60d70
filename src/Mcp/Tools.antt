-- ===== src/Mcp/Tools.antt =====
-- internal/mcp/server.go: NewServer, and what tools/list shows of each capability. The description of
-- a tool, and the types and descriptions in its schema, are left out.
use hermes_security_skills.Base.{
  List, Option, Result, [], deny_if, err, if◌then◌else◌, map, map_err, none, not, ok, some, ◌>>=◌,
  ◌>>◌, ◌∷◌,
}
use hermes_security_skills.Base.Text.{Text, codes, is_blank, is_empty, ◌==◌}
use hermes_security_skills.Capability.{Capabilities, Capability, list_capabilities}
use hermes_security_skills.Mcp.{Server}
use hermes_security_skills.Policy.{Policy, PolicyError}

pub data StartError : Type 0 where
  no_registry no_proxy_url bad_policy : StartError

-- NewServer: `given` is the policy of the configuration, `loaded` what policy.Load returns. The rest
-- of the configuration is taken as it is; `fields` has it.
unfoldable pub new_server :
    Option Capabilities
    → Option Policy
    → Result PolicyError Policy
    → Server
    → Result StartError Server
new_server registry given loaded fields = do
  caps ← elim registry [ none ↦ err no_registry | some caps ↦ ok caps ]
  deny_if (is_blank fields.proxy_url) no_proxy_url
  policy ← elim given [ some p ↦ ok p | none ↦ map_err (λ _. bad_policy) loaded ]
  ok (record fields {
    registry = caps;
    policy = policy;
    version = if is_empty fields.version then codes "0.1.0" else fields.version;
  })

-- The names of the properties of an input schema, and of the required ones.
pub record Schema : Type 0 where
  pub properties : List Text
  pub required : List Text

pub record ToolDef : Type 0 where
  pub name : Text
  pub schema : Schema

-- readOnlyInputSchemas
unfoldable pub read_only_schema : Text → Option Schema
read_only_schema name =
    if name == codes "list_history"
    then some (record {
      properties =
          codes "limit"
          ∷ codes "url_substring"
          ∷ codes "method"
          ∷ codes "status_min"
          ∷ codes "case"
          ∷ [];
      required = [];
    })
    else if name == codes "inspect_request"
    then some
        (record { properties = codes "evidence_ref" ∷ []; required = codes "evidence_ref" ∷ [] })
    else if name == codes "response_comparison"
    then some (record {
      properties = codes "evidence_ref_a" ∷ codes "evidence_ref_b" ∷ [];
      required = codes "evidence_ref_a" ∷ codes "evidence_ref_b" ∷ [];
    })
    else if name == codes "json_diff"
    then some (record {
      properties = codes "json_a" ∷ codes "json_b" ∷ [];
      required = codes "json_a" ∷ codes "json_b" ∷ [];
    })
    else none

-- The schema that is built from the capability.
unfoldable pub built_schema : Capability → Schema
built_schema c =
    if c.requires_network
    then record {
      properties =
          codes "url" ∷ codes "method" ∷ codes "headers" ∷ codes "body" ∷ codes "case" ∷ [];
      required = codes "url" ∷ codes "method" ∷ [];
    }
    else if c.requires_scope
    then record { properties = codes "url" ∷ codes "case" ∷ []; required = codes "url" ∷ [] }
    else record { properties = []; required = [] }

-- inputSchemaFor
unfoldable pub input_schema_for : Capability → Schema
unfolding read_only_schema built_schema
input_schema_for c = elim (read_only_schema c.name) [
  | none ↦ built_schema c
  | some schema ↦ if not c.requires_network then schema else built_schema c
]

-- toolsList
unfoldable pub tools_list : Server → List ToolDef
unfolding input_schema_for
tools_list s =
    map (λ c. record { name = c.name; schema = input_schema_for c }) (list_capabilities s.registry)
