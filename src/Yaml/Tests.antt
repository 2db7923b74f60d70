-- ===== src/Yaml/Tests.antt =====
-- The parser at concrete texts.
use hermes_security_skills.Base.{all, err, ok, refl, some, true, ◌≡◌}
use hermes_security_skills.Base.Int.{negsuc, pos}
use hermes_security_skills.Base.Text.{
  Text, atoi, codes, contains_rune, decimal, decimal_from, has_prefix, is_space, split, trim_left,
  trim_right, trim_space, ◌==◌,
}
use hermes_security_skills.Document.{
  bool_value, field, get_field, int_value, item, map_value, no_fields, no_items, seq_value,
  string_value,
}
use hermes_security_skills.Yaml.{
  at_colon, cut_comment, double_body, escaped, is_int, is_seq_item, join_quotes, leading,
  new_parser, parse_scalar, plain_scalar, repeated_key, single_body, source_lines, split_key,
  trim_cr, unescape_double,
}
use hermes_security_skills.Yaml.Blocks.{
  before_bracket, flow_seq, inline_value, parse_block, parse_lines, parse_yaml_text, read_parts,
  split_flow,
}
use hermes_security_skills.Yaml.Blocks.Keys.{IsRead, parse_yaml_text-IsRead}
use hermes_security_skills.Yaml.Quoted.{double_quoted, parse_scalar-quoted, single_quoted}

yaml : Unit {0}
unfolding parse_yaml_text parse_lines parse_block new_parser source_lines split trim_cr leading
    contains_rune has_prefix is_seq_item split_key at_colon inline_value flow_seq before_bracket
    split_flow read_parts parse_scalar plain_scalar is_int all atoi decimal decimal_from cut_comment
    single_body double_body join_quotes unescape_double escaped get_field trim_space trim_left
    trim_right is_space ◌==◌
yaml = tt

abbrev source : Text
source = codes "# x\na: 1\nb:\n  - c: 'it''s'\n    d: [x, \"y,z\"]\n  - -2\ne:\n- true\n"

source_parsed :
    parse_yaml_text source
    ≡ ok (
        field (codes "a") (int_value (pos 1)) (
          field
            (codes "b")
            (seq_value (
              item
                (map_value (
                  field (codes "c") (string_value (codes "it's")) (
                    field
                      (codes "d")
                      (seq_value (
                        item
                          (string_value (codes "x"))
                          (item (string_value (codes "y,z")) no_items)))
                      no_fields)))
                (item (int_value (negsuc 1)) no_items)))
            (field (codes "e") (seq_value (item (bool_value true) no_items)) no_fields)))
unfolding yaml
source_parsed = refl

repeated : parse_yaml_text (codes "a: 1\na: 2\n") ≡ err (some repeated_key)
unfolding yaml
repeated = refl

parse_yaml_text-IsRead_example : IsRead (parse_yaml_text source)
parse_yaml_text-IsRead_example = parse_yaml_text-IsRead source

parse_scalar-quoted_example :
    (parse_scalar (double_quoted (codes "a'b")) ≡ ok (string_value (codes "a'b")))
    × (parse_scalar (single_quoted (codes "a'b")) ≡ ok (string_value (codes "a'b")))
parse_scalar-quoted_example = parse_scalar-quoted (codes "a'b")
