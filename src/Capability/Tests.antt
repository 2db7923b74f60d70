-- ===== src/Capability/Tests.antt =====
-- The theorem on the registry of capabilities at a concrete document.
use hermes_security_skills.Base.{Bool, [], false, ok, refl, true, ◌∷◌, ◌≡◌}
use hermes_security_skills.Base.Text.{
  Text, codes, is_space, trim_left, trim_right, trim_space, ◌==◌,
}
use hermes_security_skills.Capability.{
  Capabilities, Capability, from_map, get_cap, insert_text, list_capabilities, optional_approval,
  read_capabilities, read_capability, require_bool, require_string, sort_texts, text_leb,
}
use hermes_security_skills.Capability.Listing.{IsListing, list_capabilities-IsListing}
use hermes_security_skills.Document.{
  Fields, bool_value, field, get_field, map_value, mapping_of, no_fields, string_value,
}

abbrev pub capability_fields : Text → Bool → Fields
capability_fields risk networked = field (codes "risk") (string_value risk) (
    field (codes "default_provider") (string_value (codes "proxy")) (
      field (codes "requires_scope") (bool_value true)
        (field (codes "requires_network") (bool_value networked) no_fields)))

abbrev document : Fields
document =
    field (codes "capabilities")
      (map_value (
        field (codes "request_replay") (map_value (capability_fields (codes "medium") true)) (
          field (codes "list_history") (map_value (capability_fields (codes "low") false))
            no_fields)))
      no_fields

abbrev pub replay : Capability
replay = record {
  name = codes "request_replay";
  risk = codes "medium";
  default_provider = codes "proxy";
  requires_scope = true;
  requires_network = true;
  requires_approval = [];
}

abbrev pub listing : Capability
listing = record {
  name = codes "list_history";
  risk = codes "low";
  default_provider = codes "proxy";
  requires_scope = true;
  requires_network = false;
  requires_approval = [];
}

abbrev pub registered : Capabilities
registered = record {
  caps = (codes "request_replay", replay) ∷ (codes "list_history", listing) ∷ [];
}

document_read : from_map document ≡ ok registered
unfolding from_map mapping_of read_capabilities read_capability require_string require_bool
    optional_approval get_field trim_space trim_left trim_right is_space ◌==◌
document_read = refl

listed : list_capabilities registered ≡ listing ∷ replay ∷ []
unfolding list_capabilities sort_texts insert_text text_leb get_cap ◌==◌
listed = refl

list_capabilities-IsListing_example : IsListing registered (list_capabilities registered)
list_capabilities-IsListing_example = list_capabilities-IsListing document registered document_read
