-- ===== src/Registry.antt =====
-- internal/registry/registry.go: the manifest of the images, the reference of an image, and the
-- resolution of a validator.
pub mod Manifests
pub mod Resolving
pub mod Overrides
pub mod Tests
use hermes_security_skills.Base.{
  Bool, List, Option, Result, [], deny_if, err, false, if◌then◌else◌, length, none, not, ok, some,
  suc, zero, ℕ, ◌&&◌, ◌++◌, ◌>>=◌, ◌>>◌, ◌||◌, ◌∷◌,
}
use hermes_security_skills.Base.Text.{Text, codes, has_prefix, is_blank, is_empty, trim_space, ◌==◌}
use hermes_security_skills.Document.{
  Fields, Items, Value, bool_value, get_field, get_text, int_value, item, map_value, nil_value,
  no_items, read_document, seq_value, string_value,
}

pub record Image : Type 0 where
  pub name : Text
  pub tag : Text
  pub digest : Text
  pub dockerfile : Text
  pub base : Text
  pub network : Text
  pub egress : Bool
  pub tool : Text
  pub tool_version : Text

-- `by_name` is the map from names to positions, the latest entry first.
pub record Manifest : Type 0 where
  pub registry : Text
  pub images : List Image
  pub by_name : List (Text × ℕ)

pub data RegistryError : Type 0 where
  unreadable_manifest unparsable_manifest no_images empty_images not_a_mapping : RegistryError
  not_text : Text → RegistryError
  not_bool no_name no_tag bad_digest : RegistryError
  duplicate_name : Text → RegistryError
  empty_id unknown_image : RegistryError
  no_overrides bad_override bad_ref : RegistryError

abbrev pub is_unpinned : Text → Bool
is_unpinned d = is_empty d || d == codes "-"

-- Ref
unfoldable pub ref : Image → Text
ref img =
    let d = trim_space img.digest in
    if not (is_empty d) && not (d == codes "-")
    then img.name ++ codes "@" ++ d
    else img.name ++ codes ":" ++ img.tag

-- The closure `str`: a missing field, or null, is the empty text.
unfoldable pub text_field : Fields → Text → Result RegistryError Text
unfolding get_field
text_field entry key = elim (get_field key entry) [
  | none ↦ ok []
  | some nil_value ↦ ok []
  | some (string_value s) ↦ ok (trim_space s)
  | some _ ↦ err (not_text key)
]

unfoldable pub egress_field : Fields → Result RegistryError Bool
unfolding get_field
egress_field entry = elim (get_field (codes "egress") entry) [
  | none ↦ ok false
  | some nil_value ↦ ok false
  | some (bool_value b) ↦ ok b
  | some _ ↦ err not_bool
]

-- The tests at the end of parseImage.
unfoldable pub validate_image : Image → Result RegistryError Image
validate_image img = do
  deny_if (is_empty img.name) no_name
  deny_if (is_empty img.tag && is_unpinned img.digest) no_tag
  deny_if (not (is_unpinned img.digest) && not (has_prefix img.digest (codes "sha256:"))) bad_digest
  ok img

unfoldable pub parse_image : Fields → Result RegistryError Image
unfolding text_field egress_field validate_image
parse_image entry = do
  name ← text_field entry (codes "name")
  tag ← text_field entry (codes "tag")
  digest ← text_field entry (codes "digest")
  dockerfile ← text_field entry (codes "dockerfile")
  base ← text_field entry (codes "base")
  network ← text_field entry (codes "network")
  tool ← text_field entry (codes "tool")
  tool_version ← text_field entry (codes "tool_version")
  egress ← egress_field entry
  validate_image (record {
    name = name;
    tag = tag;
    digest = digest;
    dockerfile = dockerfile;
    base = base;
    network = network;
    egress = egress;
    tool = tool;
    tool_version = tool_version;
  })

unfoldable pub index_of : Text → List (Text × ℕ) → Option ℕ
index_of name [] = none
index_of name ((k, i) ∷ m) = if k == name then some i else index_of name m

-- An image joins the manifest, unless its name is taken.
unfoldable pub add_image : Image → Manifest → Result RegistryError Manifest
unfolding index_of
add_image img m = elim (index_of img.name m.by_name) [
  | some _ ↦ err (duplicate_name img.name)
  | none ↦ ok (record m {
    images = m.images ++ img ∷ [];
    by_name = (img.name, length m.images) ∷ m.by_name;
  })
]

abbrev pub fields_of : Value → Result RegistryError Fields
fields_of (map_value entry) = ok entry
fields_of nil_value = err not_a_mapping
fields_of (bool_value _) = err not_a_mapping
fields_of (int_value _) = err not_a_mapping
fields_of (string_value _) = err not_a_mapping
fields_of (seq_value _) = err not_a_mapping

-- The loop of Load.
unfoldable pub load_images : Items → Manifest → Result RegistryError Manifest
unfolding parse_image add_image
load_images no_items m = ok m
load_images (item v rest) m = do
  entry ← fields_of v
  img ← parse_image entry
  m' ← add_image img m
  load_images rest m'

-- The registry of the document, where it is a text.
unfoldable pub registry_of : Fields → Text
unfolding get_field
registry_of doc = elim (get_field (codes "registry") doc) [
  | none ↦ []
  | some (string_value s) ↦ s
  | some _ ↦ []
]

unfoldable pub items_of : Fields → Result RegistryError Items
unfolding get_field
items_of doc = elim (get_field (codes "images") doc) [
  | none ↦ err no_images
  | some (seq_value no_items) ↦ err empty_images
  | some (seq_value (item v rest)) ↦ ok (item v rest)
  | some _ ↦ err empty_images
]

abbrev pub empty_manifest : Text → Manifest
empty_manifest registry = record { registry = registry; images = []; by_name = [] }

unfoldable pub load_manifest :
    (List ℕ → Option Fields) → Option (List ℕ) → Result RegistryError Manifest
unfolding registry_of items_of load_images
load_manifest parse file = do
  doc ← read_document parse file unreadable_manifest unparsable_manifest
  items ← items_of doc
  load_images items (empty_manifest (registry_of doc))

abbrev pub validator_images : List (Text × Text)
validator_images =
    (codes "http-response-comparison", codes "hermes-validator-http")
    ∷ (codes "header-analysis", codes "hermes-validator-http")
    ∷ (codes "openapi-analysis", codes "hermes-validator-openapi")
    ∷ (codes "json-diff", codes "hermes-validator-json")
    ∷ (codes "json-structure", codes "hermes-validator-json")
    ∷ (codes "python-validate", codes "hermes-validator-python")
    ∷ []

unfoldable pub image_name : Text → Text
unfolding get_text
image_name id = elim (get_text id validator_images) [ none ↦ id | some alias_name ↦ alias_name ]

abbrev pub nth : {A : Type 0} → ℕ → List A → Option A
nth i [] = none
nth zero (x ∷ xs) = some x
nth (suc i) (x ∷ xs) = nth i xs

-- Resolve; none stands for the panic of an index that is out of range.
unfoldable pub resolve : Manifest → Text → Option (Result RegistryError Text)
unfolding index_of image_name ref
resolve m validator_id =
    if is_blank validator_id
    then some (err empty_id)
    else elim (index_of (image_name (trim_space validator_id)) m.by_name) [
      | none ↦ some (err unknown_image)
      | some i ↦ elim (nth i m.images) [ none ↦ none | some img ↦ some (ok (ref img)) ]
    ]

-- ImageOf; none stands for the panic of an index that is out of range.
unfoldable pub image_of : Manifest → Text → Option (Option Image)
unfolding index_of
image_of m name = elim (index_of name m.by_name) [
  | none ↦ some none
  | some i ↦ elim (nth i m.images) [ none ↦ none | some img ↦ some (some img) ]
]
