-- ===== src/Document.antt =====
-- internal/yamlmini: a parsed document, as the packages read it. A mapping is its fields in the order
-- in which Go happens to visit them. The readers take the parser as an argument; Yaml has it.
pub mod Assign
use hermes_security_skills.Base.{
  Bool, List, Option, Result, [], err, false, if◌then◌else◌, keep, none, not, ok, some, true, ℕ,
  ◌∷◌, ◌≡◌, ◌⊎◌,
}
use hermes_security_skills.Base.Int.{ℤ}
use hermes_security_skills.Base.Text.{Text, ◌==◌}

mutual
  pub data Value : Type 0 where
    nil_value : Value
    bool_value : Bool → Value
    int_value : ℤ → Value
    string_value : Text → Value
    seq_value : Items → Value
    map_value : Fields → Value

  pub data Items : Type 0 where
    no_items : Items
    item : Value → Items → Items

  pub data Fields : Type 0 where
    no_fields : Fields
    field : Text → Value → Fields → Fields

-- len(doc) == 0
abbrev pub is_no_fields : Fields → Bool
is_no_fields no_fields = true
is_no_fields (field k v rest) = false

unfoldable pub get_field : Text → Fields → Option Value
get_field name no_fields = none
get_field name (field k v rest) = if k == name then some v else get_field name rest

abbrev pub HasField : Text → Value → Fields → Type 0
HasField name value no_fields = ⊥
HasField name value (field k v rest) = (k ≡ name) × (v ≡ value) ⊎ HasField name value rest

-- A mapping of texts: an assignment replaces the value of its key.
unfoldable pub assign : Text → Text → List (Text × Text) → List (Text × Text)
unfolding keep
assign k v m = (k, v) ∷ keep (λ e. not (e.0 == k)) m

unfoldable pub get_text : Text → List (Text × Text) → Option Text
get_text name [] = none
get_text name ((k, v) ∷ m) = if k == name then some v else get_text name m

pub data FieldError : Type 0 where
  is_missing wrong_type out_of_range : FieldError

-- The document of a file: what ReadFile gave, parsed.
abbrev pub read_document :
    {E : Type 0} → (List ℕ → Option Fields) → Option (List ℕ) → E → E → Result E Fields
read_document parse file unread unparsed = elim file [
  | none ↦ err unread
  | some bytes ↦ elim (parse bytes) [ none ↦ err unparsed | some doc ↦ ok doc ]
]

-- The mapping in a field, which must not be empty.
unfoldable pub mapping_of : {E : Type 0} → Text → Fields → E → E → Result E Fields
unfolding get_field
mapping_of name doc lacking bad = elim (get_field name doc) [
  | none ↦ err lacking
  | some (map_value no_fields) ↦ err bad
  | some (map_value (field k v rest)) ↦ ok (field k v rest)
  | some _ ↦ err bad
]
