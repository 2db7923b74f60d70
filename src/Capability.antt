-- ===== src/Capability.antt =====
-- internal/capability/capability.go: the registry of the capabilities.
pub mod Order
pub mod Listing
pub mod Tests
use hermes_security_skills.Base.{
  Bool, List, Option, Result, [], eqb, err, false, if◌then◌else◌, length, ltb, map, none, ok, some,
  true, ℕ, ◌&&◌, ◌>>=◌, ◌>>◌, ◌||◌, ◌∷◌,
}
use hermes_security_skills.Base.Text.{Text, codes, is_blank, ◌==◌}
use hermes_security_skills.Document.{
  FieldError, Fields, Value, bool_value, field, get_field, int_value, is_missing, map_value,
  mapping_of, nil_value, no_fields, read_document, seq_value, string_value, wrong_type,
}

pub record Capability : Type 0 where
  pub name : Text
  pub risk : Text
  pub default_provider : Text
  pub requires_scope : Bool
  pub requires_network : Bool
  pub requires_approval : Text

pub data CapabilityError : Type 0 where
  unreadable_capabilities unparsable_capabilities no_capabilities empty_capabilities :
      CapabilityError
  not_a_capability : Text → CapabilityError
  bad_capability_field : Text → Text → FieldError → CapabilityError
  not_registered : Text → CapabilityError

-- `caps`, by name. A mapping of the document has each name once.
pub record Capabilities : Type 0 where
  pub caps : List (Text × Capability)

unfoldable pub require_string : Fields → Text → Text → Result CapabilityError Text
unfolding get_field
require_string m cap key = elim (get_field key m) [
  | none ↦ err (bad_capability_field cap key is_missing)
  | some (string_value s) ↦
      if is_blank s then err (bad_capability_field cap key wrong_type) else ok s
  | some _ ↦ err (bad_capability_field cap key wrong_type)
]

unfoldable pub require_bool : Fields → Text → Text → Result CapabilityError Bool
unfolding get_field
require_bool m cap key = elim (get_field key m) [
  | none ↦ err (bad_capability_field cap key is_missing)
  | some (bool_value b) ↦ ok b
  | some _ ↦ err (bad_capability_field cap key wrong_type)
]

-- `requires_approval`, which may be absent or null.
unfoldable pub optional_approval : Fields → Text → Result CapabilityError Text
unfolding get_field
optional_approval m cap = elim (get_field (codes "requires_approval") m) [
  | none ↦ ok []
  | some nil_value ↦ ok []
  | some (string_value s) ↦ ok s
  | some _ ↦ err (bad_capability_field cap (codes "requires_approval") wrong_type)
]

-- One round of the loop of FromMap.
unfoldable pub read_capability : Text → Fields → Result CapabilityError Capability
unfolding require_string require_bool optional_approval
read_capability name cm = do
  risk ← require_string cm name (codes "risk")
  provider ← require_string cm name (codes "default_provider")
  scoped ← require_bool cm name (codes "requires_scope")
  networked ← require_bool cm name (codes "requires_network")
  approval ← optional_approval cm name
  ok (record {
    name = name;
    risk = risk;
    default_provider = provider;
    requires_scope = scoped;
    requires_network = networked;
    requires_approval = approval;
  })

abbrev pub capability_of : Text → Value → Result CapabilityError Capability
capability_of name (map_value cm) = read_capability name cm
capability_of name nil_value = err (not_a_capability name)
capability_of name (bool_value _) = err (not_a_capability name)
capability_of name (int_value _) = err (not_a_capability name)
capability_of name (string_value _) = err (not_a_capability name)
capability_of name (seq_value _) = err (not_a_capability name)

unfoldable pub read_capabilities : Fields → Result CapabilityError (List (Text × Capability))
unfolding read_capability
read_capabilities no_fields = ok []
read_capabilities (field k v rest) = do
  c ← capability_of k v
  cs ← read_capabilities rest
  ok ((k, c) ∷ cs)

unfoldable pub from_map : Fields → Result CapabilityError Capabilities
unfolding read_capabilities mapping_of
from_map doc = do
  m ← mapping_of (codes "capabilities") doc no_capabilities empty_capabilities
  caps ← read_capabilities m
  ok (record { caps = caps })

unfoldable pub load_capabilities :
    (List ℕ → Option Fields) → Option (List ℕ) → Result CapabilityError Capabilities
unfolding from_map
load_capabilities parse file = do
  doc ← read_document parse file unreadable_capabilities unparsable_capabilities
  from_map doc

unfoldable pub get_cap : Text → List (Text × Capability) → Option Capability
get_cap name [] = none
get_cap name ((k, c) ∷ m) = if k == name then some c else get_cap name m

-- Resolve
unfoldable pub resolve_capability : Capabilities → Text → Result CapabilityError Capability
unfolding get_cap
resolve_capability r name = elim (get_cap name r.caps) [
  | none ↦ err (not_registered name)
  | some c ↦ ok c
]

-- Count
unfoldable pub capability_count : Capabilities → ℕ
capability_count r = length r.caps

-- The order of sort.Strings.
unfoldable pub text_leb : Text → Text → Bool
text_leb [] t = true
text_leb (a ∷ s) [] = false
text_leb (a ∷ s) (b ∷ t) = ltb a b || eqb a b && text_leb s t

unfoldable pub insert_text : Text → List Text → List Text
unfolding text_leb
insert_text s [] = s ∷ []
insert_text s (t ∷ ts) =
    let rest = insert_text s ts in if text_leb s t then s ∷ t ∷ ts else t ∷ rest

-- sort.Strings
unfoldable pub sort_texts : List Text → List Text
unfolding insert_text
sort_texts [] = []
sort_texts (s ∷ ss) = insert_text s (sort_texts ss)

-- The zero value that a map gives for a missing key.
abbrev pub zero_capability : Capability
zero_capability = record {
  name = [];
  risk = [];
  default_provider = [];
  requires_scope = false;
  requires_network = false;
  requires_approval = [];
}

abbrev pub cap_or_zero : Option Capability → Capability
cap_or_zero none = zero_capability
cap_or_zero (some c) = c

-- List
unfoldable pub list_capabilities : Capabilities → List Capability
unfolding sort_texts get_cap
list_capabilities r = map (λ n. cap_or_zero (get_cap n r.caps)) (sort_texts (map (λ e. e.0) r.caps))
