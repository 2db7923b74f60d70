-- ===== src/Registry/Overrides.antt =====
-- internal/registry/registry.go: the file of image overrides, and the override of a validator.
use hermes_security_skills.Base.{
  List, Option, Result, [], deny_if, err, if◌then◌else◌, none, ok, some, ℕ, ◌>>=◌, ◌>>◌, ◌||◌,
}
use hermes_security_skills.Base.Text.{Text, codes, contains_any, is_blank, trim_space}
use hermes_security_skills.Document.{
  Fields, Value, assign, bool_value, field, get_text, int_value, is_no_fields, map_value, nil_value,
  no_fields, read_document, seq_value, string_value,
}
use hermes_security_skills.Registry.{
  RegistryError, bad_override, bad_ref, no_overrides, unparsable_manifest, unreadable_manifest,
}

-- `!ok || strings.TrimSpace(s) == ""` with the test of the key, then the one for blanks in the
-- reference.
unfoldable pub override_ref : Text → Value → Result RegistryError Text
override_ref key (string_value s) = do
  deny_if (is_blank key || is_blank s) bad_override
  deny_if (contains_any s (codes " \t\n")) bad_ref
  ok (trim_space s)
override_ref key nil_value = err bad_override
override_ref key (bool_value _) = err bad_override
override_ref key (int_value _) = err bad_override
override_ref key (seq_value _) = err bad_override
override_ref key (map_value _) = err bad_override

-- The loop of LoadOverrides.
unfoldable pub read_overrides :
    Fields → List (Text × Text) → Result RegistryError (List (Text × Text))
unfolding override_ref
read_overrides no_fields out = ok out
read_overrides (field k v rest) out = do
  image ← override_ref k v
  read_overrides rest (assign (trim_space k) image out)

unfoldable pub load_overrides :
    (List ℕ → Option Fields) → Option (List ℕ) → Result RegistryError (List (Text × Text))
unfolding read_overrides
load_overrides parse file = do
  doc ← read_document parse file unreadable_manifest unparsable_manifest
  deny_if (is_no_fields doc) no_overrides
  read_overrides doc []

-- A nil map of overrides is none.
unfoldable pub apply_override : Option (List (Text × Text)) → Text → Option Text
unfolding get_text
apply_override none validator_id = none
apply_override (some overrides) validator_id = elim (get_text validator_id overrides) [
  | none ↦ none
  | some image ↦ if is_blank image then none else some (trim_space image)
]
