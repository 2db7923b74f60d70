-- ===== src/Policy.antt =====
-- internal/policy/policy.go: the readers of risk.yaml and limits.yaml, and Evaluate. The bytes of a
-- file and the parser are arguments.
pub mod Limits
pub mod Evaluate
pub mod Tests
use hermes_security_skills.Base.{
  Bool, List, Option, Result, [], deny_if, err, if◌then◌else◌, none, not, ok, some, ℕ, ◌>>=◌, ◌>>◌,
  ◌||◌, ◌∷◌,
}
use hermes_security_skills.Base.Int.{lebℤ, pos, ℤ}
use hermes_security_skills.Base.Text.{Text, codes, is_blank, to_lower, ◌==◌}
use hermes_security_skills.Document.{
  FieldError, Fields, Value, assign, bool_value, field, get_field, get_text, int_value, is_missing,
  map_value, mapping_of, nil_value, no_fields, out_of_range, read_document, seq_value, string_value,
  wrong_type,
}
use hermes_security_skills.Risk.{
  action_approval_required, action_automatic, action_conditional, action_disabled, default_action,
}

pub record PolicyLimits : Type 0 where
  pub max_entries_per_task : ℤ
  pub max_requests_total : ℤ
  pub rate_limit_rps : ℤ
  pub max_concurrency : ℤ
  pub stop_on_429 : Bool
  pub stop_on_repeated_5xx : Bool
  pub destructive_payloads : Text
  pub exfiltration_payloads : Text
  pub credential_attack_lists : Text

-- `mapping` is DefaultAction of the risk policy; it is none where one of the two is nil.
pub record Policy : Type 0 where
  pub mapping : Option (List (Text × Text))
  pub limits : Option PolicyLimits

pub data PolicyError : Type 0 where
  unreadable_policy unparsable_policy no_mapping empty_mapping : PolicyError
  bad_field : Text → FieldError → PolicyError
  unknown_class unknown_action : Text → PolicyError
  empty_risk : PolicyError

unfoldable pub is_valid_action : Text → Bool
is_valid_action a =
    a == action_automatic
    || a == action_conditional
    || a == action_approval_required
    || a == action_disabled

unfoldable pub evaluate : Policy → Text → Result PolicyError Text
unfolding is_valid_action get_text
evaluate p lvl = if is_blank lvl then err empty_risk else elim p.mapping [
  | none ↦ elim (default_action lvl) [ err _ ↦ err (unknown_class lvl) | ok a ↦ ok a ]
  | some m ↦ elim (get_text lvl m) [
    | none ↦ err (unknown_class lvl)
    | some act ↦ if not (is_valid_action act) then err (unknown_action act) else ok act
  ]
]

-- One entry of the loop of LoadRisk: the level and its action.
unfoldable pub risk_entry : Text → Value → Result PolicyError (Text × Text)
risk_entry k v = elim (default_action (to_lower k)) [
  | err _ ↦ err (unknown_class k)
  | ok _ ↦ elim v [
    | string_value s ↦ ok (to_lower k, s)
    | nil_value ↦ err (bad_field k wrong_type)
    | bool_value _ ↦ err (bad_field k wrong_type)
    | int_value _ ↦ err (bad_field k wrong_type)
    | seq_value _ ↦ err (bad_field k wrong_type)
    | map_value _ ↦ err (bad_field k wrong_type)
  ]
]

unfoldable pub risk_from : Fields → List (Text × Text) → Result PolicyError (List (Text × Text))
unfolding risk_entry assign
risk_from no_fields m = ok m
risk_from (field k v rest) m = do e ← risk_entry k v; risk_from rest (assign e.0 e.1 m)

unfoldable pub check_actions : List (Text × Text) → Result PolicyError (Unit {0})
unfolding is_valid_action
check_actions [] = ok tt
check_actions ((k, a) ∷ m) = do
  deny_if (not (is_valid_action a)) (unknown_action a)
  check_actions m

-- The mapping default_action of the file.
unfoldable pub risk_entries : (List ℕ → Option Fields) → Option (List ℕ) → Result PolicyError Fields
unfolding mapping_of
risk_entries parse file = do
  doc ← read_document parse file unreadable_policy unparsable_policy
  mapping_of (codes "default_action") doc no_mapping empty_mapping

unfoldable pub load_risk :
    (List ℕ → Option Fields) → Option (List ℕ) → Result PolicyError (List (Text × Text))
unfolding risk_entries risk_from check_actions
load_risk parse file = do
  entries ← risk_entries parse file
  m ← risk_from entries []
  check_actions m
  ok m

unfoldable pub require_positive_int : Fields → Text → Result PolicyError ℤ
unfolding get_field
require_positive_int m name = elim (get_field name m) [
  | none ↦ err (bad_field name is_missing)
  | some (int_value n) ↦ if lebℤ n (pos 0) then err (bad_field name out_of_range) else ok n
  | some _ ↦ err (bad_field name wrong_type)
]

unfoldable pub require_true_bool : Fields → Text → Result PolicyError Bool
unfolding get_field
require_true_bool m name = elim (get_field name m) [
  | none ↦ err (bad_field name is_missing)
  | some (bool_value b) ↦ if not b then err (bad_field name out_of_range) else ok b
  | some _ ↦ err (bad_field name wrong_type)
]

unfoldable pub require_deny : Fields → Text → Result PolicyError Text
unfolding get_field
require_deny m name = elim (get_field name m) [
  | none ↦ err (bad_field name is_missing)
  | some (string_value s) ↦
      if not (s == codes "deny") then err (bad_field name out_of_range) else ok s
  | some _ ↦ err (bad_field name wrong_type)
]

-- The fields of payload_policy.
unfoldable pub limits_from : Fields → Result PolicyError PolicyLimits
unfolding require_positive_int require_true_bool require_deny
limits_from m = do
  entries ← require_positive_int m (codes "max_entries_per_task")
  total ← require_positive_int m (codes "max_requests_total")
  rps ← require_positive_int m (codes "rate_limit_rps")
  concurrency ← require_positive_int m (codes "max_concurrency")
  on_429 ← require_true_bool m (codes "stop_on_429")
  on_5xx ← require_true_bool m (codes "stop_on_repeated_5xx")
  destructive ← require_deny m (codes "destructive_payloads")
  exfiltration ← require_deny m (codes "exfiltration_payloads")
  credential ← require_deny m (codes "credential_attack_lists")
  ok (record {
    max_entries_per_task = entries;
    max_requests_total = total;
    rate_limit_rps = rps;
    max_concurrency = concurrency;
    stop_on_429 = on_429;
    stop_on_repeated_5xx = on_5xx;
    destructive_payloads = destructive;
    exfiltration_payloads = exfiltration;
    credential_attack_lists = credential;
  })

unfoldable pub load_limits :
    (List ℕ → Option Fields) → Option (List ℕ) → Result PolicyError PolicyLimits
unfolding mapping_of limits_from
load_limits parse file = do
  doc ← read_document parse file unreadable_policy unparsable_policy
  m ← mapping_of (codes "payload_policy") doc no_mapping empty_mapping
  limits_from m

-- Load: risk.yaml, then limits.yaml.
unfoldable pub load_policy :
    (List ℕ → Option Fields) → Option (List ℕ) → Option (List ℕ) → Result PolicyError Policy
unfolding load_risk load_limits
load_policy parse risk_file limits_file = do
  m ← load_risk parse risk_file
  lim ← load_limits parse limits_file
  ok (record { mapping = some m; limits = some lim })
