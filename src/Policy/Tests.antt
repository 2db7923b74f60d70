-- ===== src/Policy/Tests.antt =====
-- The theorems on the policy at concrete files.
use hermes_security_skills.Base.{List, [], keep, none, ok, refl, some, true, ◌↔◌, ◌∷◌, ◌≡◌}
use hermes_security_skills.Base.Int.{pos}
use hermes_security_skills.Base.Text.{
  Text, codes, is_space, lower_rune, to_lower, trim_left, trim_right, trim_space, ◌==◌,
}
use hermes_security_skills.Document.{
  Fields, assign, bool_value, field, get_field, get_text, int_value, map_value, mapping_of,
  no_fields, string_value,
}
use hermes_security_skills.Policy.{
  PolicyLimits, check_actions, evaluate, is_valid_action, limits_from, load_risk, require_deny,
  require_positive_int, require_true_bool, risk_entries, risk_entry, risk_from,
}
use hermes_security_skills.Policy.Evaluate.{Answer, evaluate-Answer}
use hermes_security_skills.Policy.Limits.{AreLimits, limits_from_iff}
use hermes_security_skills.Risk.{default_action}

abbrev risk_document : Fields
risk_document =
    field (codes "default_action")
      (map_value (
        field (codes "LOW") (string_value (codes "automatic"))
          (field (codes "critical") (string_value (codes "disabled")) no_fields)))
      no_fields

abbrev mapping : List (Text × Text)
mapping = (codes "critical", codes "disabled") ∷ (codes "low", codes "automatic") ∷ []

reading : Unit {0}
unfolding load_risk risk_entries mapping_of risk_from risk_entry check_actions is_valid_action
    assign keep get_field get_text ◌==◌ to_lower lower_rune default_action evaluate trim_space
    trim_left trim_right is_space limits_from require_positive_int require_true_bool require_deny
reading = tt

loaded : load_risk (λ bytes. some risk_document) (some []) ≡ ok mapping
unfolding reading
loaded = refl

-- Two keys that differ in their case are one level, and the one that is visited last decides.
last_visited :
    risk_from
      (field
        (codes "low")
        (string_value (codes "disabled"))
        (field (codes "Low") (string_value (codes "automatic")) no_fields))
      []
    ≡ ok ((codes "low", codes "automatic") ∷ [])
unfolding reading
last_visited = refl

evaluate-Answer_example :
    (entries : Fields) × (risk_entries (λ bytes. some risk_document) (some []) ≡ ok entries)
    × Answer entries
        (codes "low")
        (evaluate (record { mapping = some mapping; limits = none }) (codes "low"))
evaluate-Answer_example =
    evaluate-Answer (λ bytes. some risk_document) (some []) mapping none (codes "low") loaded

abbrev limits_fields : Fields
limits_fields = field (codes "max_entries_per_task") (int_value (pos 500)) (
    field (codes "max_requests_total") (int_value (pos 1000)) (
      field (codes "rate_limit_rps") (int_value (pos 2)) (
        field (codes "max_concurrency") (int_value (pos 1)) (
          field (codes "stop_on_429") (bool_value true) (
            field (codes "stop_on_repeated_5xx") (bool_value true) (
              field (codes "destructive_payloads") (string_value (codes "deny")) (
                field (codes "exfiltration_payloads") (string_value (codes "deny")) (
                  field (codes "credential_attack_lists") (string_value (codes "deny"))
                    no_fields))))))))

abbrev limits : PolicyLimits
limits = record {
  max_entries_per_task = pos 500;
  max_requests_total = pos 1000;
  rate_limit_rps = pos 2;
  max_concurrency = pos 1;
  stop_on_429 = true;
  stop_on_repeated_5xx = true;
  destructive_payloads = codes "deny";
  exfiltration_payloads = codes "deny";
  credential_attack_lists = codes "deny";
}

limits_read : limits_from limits_fields ≡ ok limits
unfolding reading
limits_read = refl

limits_from_iff_example : (limits_from limits_fields ≡ ok limits) ↔ AreLimits limits_fields limits
limits_from_iff_example = limits_from_iff limits_fields limits
