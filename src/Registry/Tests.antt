-- ===== src/Registry/Tests.antt =====
-- The theorems on the manifest at a concrete one, of two images.
use hermes_security_skills.Base.{[], false, ok, refl, some, true, ◌∷◌, ◌≡◌}
use hermes_security_skills.Base.Text.{
  codes, has_prefix, is_space, trim_left, trim_right, trim_space, ◌==◌,
}
use hermes_security_skills.Document.{
  Fields, bool_value, field, get_field, get_text, item, map_value, no_fields, no_items, seq_value,
  string_value,
}
use hermes_security_skills.Registry.{
  Manifest, add_image, egress_field, image_name, index_of, items_of, load_images, load_manifest,
  parse_image, ref, registry_of, resolve, text_field, validate_image,
}
use hermes_security_skills.Registry.Resolving.{Resolved, resolve-Resolved}

abbrev http_image : Fields
http_image = field (codes "name") (string_value (codes " hermes-validator-http ")) (
    field (codes "tag") (string_value (codes "0.1.0"))
      (field (codes "digest") (string_value (codes "-")) no_fields))

abbrev json_image : Fields
json_image = field (codes "name") (string_value (codes "hermes-validator-json")) (
    field (codes "digest") (string_value (codes "sha256:ab"))
      (field (codes "egress") (bool_value true) no_fields))

abbrev document : Fields
document = field (codes "registry") (string_value (codes "ghcr.io")) (
    field (codes "images")
      (seq_value (item (map_value http_image) (item (map_value json_image) no_items))) no_fields)

abbrev manifest : Manifest
manifest = record {
  registry = codes "ghcr.io";
  images =
      record {
        name = codes "hermes-validator-http";
        tag = codes "0.1.0";
        digest = codes "-";
        dockerfile = [];
        base = [];
        network = [];
        egress = false;
        tool = [];
        tool_version = [];
      }
      ∷ record {
        name = codes "hermes-validator-json";
        tag = [];
        digest = codes "sha256:ab";
        dockerfile = [];
        base = [];
        network = [];
        egress = true;
        tool = [];
        tool_version = [];
      }
      ∷ [];
  by_name = (codes "hermes-validator-json", 1) ∷ (codes "hermes-validator-http", 0) ∷ [];
}

loading : Unit {0}
unfolding load_manifest registry_of items_of load_images parse_image add_image text_field
    egress_field validate_image get_field index_of has_prefix ◌==◌ trim_space trim_left trim_right
    is_space resolve image_name get_text ref
loading = tt

loaded : load_manifest (λ bytes. some document) (some []) ≡ ok manifest
unfolding loading
loaded = refl

resolved_alias :
    resolve manifest (codes "header-analysis") ≡ some (ok (codes "hermes-validator-http:0.1.0"))
unfolding loading
resolved_alias = refl

resolved_digest :
    resolve manifest (codes "json-diff ") ≡ some (ok (codes "hermes-validator-json@sha256:ab"))
unfolding loading
resolved_digest = refl

resolve-Resolved_example :
    Resolved manifest (codes "header-analysis") (resolve manifest (codes "header-analysis"))
resolve-Resolved_example =
    resolve-Resolved (λ bytes. some document) (some []) manifest (codes "header-analysis") loaded
