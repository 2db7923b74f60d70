-- ===== src/Events/Tests.antt =====
-- The theorems on the event store at a concrete directory.
use hermes_security_skills.Base.{
  List, Option, [], err, keep, none, ok, refl, some, true, ◌↔◌, ◌∷◌, ◌≡◌,
}
use hermes_security_skills.Base.Int.{pos}
use hermes_security_skills.Base.Text.{
  Text, codes, contains, has_prefix, is_space, lower_rune, split, to_lower, to_upper, trim_left,
  trim_right, trim_space, upper_rune, ◌==◌,
}
use hermes_security_skills.Capability.{insert_text, sort_texts, text_leb}
use hermes_security_skills.Document.{
  Value, assign, field, get_field, get_text, int_value, item, map_value, nil_value, no_fields,
  no_items, seq_value,
}
use hermes_security_skills.Events.{
  EventCodec, EventEntry, EvidenceCore, build_index, cache_lines, cache_text, drop_first,
  fingerprint, fingerprint_text, insert_entry, list_events_of, parse_and_verify, passes, read_cache,
  read_cached_lines, read_files, sort_entries, tampered, verify_files,
}
use hermes_security_skills.Events.Agreement.{Agree, IsDistinct, compare_records_iff}
use hermes_security_skills.Events.Comparing.{
  compare_headers, compare_records, header_only_a, join_values, must_decode, normalize_from,
  normalize_headers, sorted_union_keys,
}
use hermes_security_skills.Events.Json.{
  diff_json, each_key, field_keys, items_length, json_diff, length_differs, only_json_a,
  sorted_string_keys, value_differs,
}
use hermes_security_skills.Events.Json.Places.{SameJson}
use hermes_security_skills.Events.Json.Same.{json_diff_iff}

events : Unit {0}
unfolding build_index read_files fingerprint fingerprint_text read_cache read_cached_lines split
    verify_files parse_and_verify sort_entries insert_entry cache_text cache_lines list_events_of
    keep passes drop_first contains has_prefix to_lower lower_rune to_upper upper_rune trim_space
    trim_left trim_right is_space ◌==◌ compare_records normalize_headers normalize_from assign
    join_values sorted_union_keys sort_texts insert_text text_leb get_text compare_headers
    must_decode json_diff diff_json each_key sorted_string_keys field_keys get_field items_length
events = tt

abbrev core : EvidenceCore
core = record {
  seq = pos 1;
  captured_at = codes "t";
  method = codes "GET";
  url = codes "https://app.test/";
  request_body = [];
  status = pos 200;
  headers = (codes "Server", codes "a" ∷ codes "b" ∷ []) ∷ [];
  response_body = [];
  case_id = codes "case-1";
  copied = no_fields;
}

-- Each file holds the same evidence, with the digest that every text has here.
abbrev pub sample_codec : EventCodec
sample_codec = record {
  decode_evidence = λ bytes. some (core, codes "aa");
  encode_core = λ c. some c.url;
  decode_meta = λ line. some (codes "events-index", pos 2, codes "aa");
  encode_meta = λ m. codes "m";
  decode_entry = λ line. none;
  encode_entry = λ e. codes "e";
  sha256_hex = λ text. codes "aa";
  format_int = λ n. codes "1";
  decode_base64 = λ text. some text;
  is_utf8 = λ text. true;
}

abbrev pub one_entry : EventEntry
one_entry = record {
  seq = pos 1;
  ts = codes "t";
  url = codes "https://app.test/";
  method = codes "GET";
  status = pos 200;
  evidence_ref = codes "evidence-1.json";
  sha256 = codes "aa";
  case_id = codes "case-1";
}

abbrev one_file : List (Text × Option Text)
one_file = (codes "evidence-1.json", some (codes "x")) ∷ []

abbrev pub one_read : List (Text × Text)
one_read = (codes "evidence-1.json", codes "x") ∷ []

pub files_read : read_files one_file ≡ ok one_read
unfolding events
files_read = refl

pub no_cache : read_cache sample_codec none (fingerprint sample_codec one_read) ≡ none
unfolding events
no_cache = refl

indexed : (build_index sample_codec true one_file none).0 ≡ ok (one_entry ∷ [])
unfolding events
indexed = refl

-- The same codec, but every evidence has another digest than its file says, and the lines of the cache
-- decode to an entry.
abbrev forging_codec : EventCodec
forging_codec = record sample_codec {
  decode_evidence = λ bytes. some (core, codes "bb");
  decode_entry = λ line. some one_entry;
}

-- The tampered file is refused without a cache, and indexed with one that names the fingerprint.
tampered_alone : (build_index forging_codec true one_file none).0 ≡ err tampered
unfolding events
tampered_alone = refl

tampered_cached :
    (build_index forging_codec true one_file (some (codes "m\ne\n"))).0 ≡ ok (one_entry ∷ [])
unfolding events
tampered_cached = refl

names-IsDistinct : IsDistinct core.headers
unfolding events
names-IsDistinct = (tt, tt)

compare_records_iff_example :
    (compare_records sample_codec core (record core { headers = [] }) ≡ [])
    ↔ Agree sample_codec core (record core { headers = [] })
compare_records_iff_example =
    compare_records_iff sample_codec core (record core { headers = [] }) names-IsDistinct tt

header_observed :
    compare_records sample_codec core (record core { headers = [] })
    ≡ header_only_a (codes "server") (codes "a, b") ∷ []
unfolding events
header_observed = refl

-- Two objects with the same keys in another order, and one with a longer sequence.
abbrev object : Value
object = map_value (
    field (codes "a") (seq_value (item (int_value (pos 1)) no_items))
      (field (codes "b") nil_value no_fields))

abbrev object_swapped : Value
object_swapped = map_value (
    field (codes "b") nil_value
      (field (codes "a") (seq_value (item (int_value (pos 1)) no_items)) no_fields))

abbrev object_longer : Value
object_longer =
    map_value
      (field (codes "a") (seq_value (item (int_value (pos 2)) (item nil_value no_items))) no_fields)

json_diff_iff_example :
    (json_diff sample_codec object object_swapped ≡ [])
    ↔ SameJson (some object) (some object_swapped)
json_diff_iff_example = json_diff_iff sample_codec object object_swapped

order_ignored : json_diff sample_codec object object_swapped ≡ []
unfolding events
order_ignored = refl

differences_observed :
    json_diff sample_codec object object_longer
    ≡ length_differs (codes "$.a") 1 2
      ∷ value_differs (codes "$.a[1]") (int_value (pos 1)) (int_value (pos 2))
      ∷ only_json_a (codes "$.b") nil_value
      ∷ []
unfolding events
differences_observed = refl
