-- ===== src/Yaml/Blocks.antt =====
-- internal/yamlmini/yaml.go: the values behind a key or a dash, and the blocks of lines. The parser is
-- the list of the lines that are left; its methods call each other on fuel.
pub mod Fuel
pub mod Unique
pub mod Keys
use hermes_security_skills.Base.{
  Bool, List, Option, Result, [], eqb, err, false, if◌then◌else◌, length, ltb, map_err, map_some,
  none, not, ok, some, suc, true, zero, ℕ, ◌&&◌, ◌*◌, ◌++◌, ◌+◌, ◌>>=◌, ◌>>◌, ◌∷◌,
}
use hermes_security_skills.Base.Text.{Text, codes, is_blank, is_empty, put_first, trim_space}
use hermes_security_skills.Document.{
  Fields, Items, Value, field, get_field, item, map_value, nil_value, no_fields, no_items,
  seq_value,
}
use hermes_security_skills.Yaml.{
  Line, YamlError, bad_mapping_line, flow_mapping, inconsistent_indent, is_seq_item, leftover_lines,
  new_parser, not_top_mapping, open_flow, parse_scalar, repeated_key, split_key,
}

-- splitFlowParts; the flags tell whether the text stands in single or in double quotes.
unfoldable pub split_flow : Bool → Bool → Text → List Text
split_flow in_single in_double [] = [] ∷ []
split_flow in_single in_double (c ∷ s) =
    let opens_single = eqb c 39 && not in_double in
    let opens_double = eqb c b'"' && not in_single in
    let ends_part = eqb c b',' && not in_single && not in_double in
    let rest =
      split_flow (if opens_single then not in_single else in_single)
        (if opens_double && not opens_single then not in_double else in_double) s in
    if ends_part then [] ∷ rest else put_first c rest

-- The text without its last character, where that is a closing bracket.
unfoldable pub before_bracket : Text → Option Text
before_bracket [] = none
before_bracket (c ∷ []) = if eqb c b']' then some [] else none
before_bracket (c ∷ d ∷ s) = map_some (λ t. c ∷ t) (before_bracket (d ∷ s))

unfoldable pub read_parts : List Text → Result YamlError Items
read_parts [] = ok no_items
read_parts (part ∷ parts) = do
  v ← parse_scalar (trim_space part)
  vs ← read_parts parts
  ok (item v vs)

-- parseFlowSeq, behind the opening bracket.
unfoldable pub flow_seq : Text → Result YamlError Value
unfolding before_bracket split_flow read_parts
flow_seq s = elim (before_bracket s) [
  | none ↦ err open_flow
  | some inner ↦
      if is_blank inner
      then ok (seq_value no_items)
      else do vs ← read_parts (split_flow false false (trim_space inner)); ok (seq_value vs)
]

abbrev pub inline_of : Text → Result YamlError Value
inline_of [] = ok nil_value
inline_of (c ∷ s) =
    if eqb c b'#'
    then ok nil_value
    else if eqb c b'['
    then flow_seq s
    else if eqb c b'{'
    then err flow_mapping
    else parse_scalar (c ∷ s)

-- parseInlineValue
unfoldable pub inline_value : Text → Result YamlError Value
unfolding flow_seq
inline_value s = inline_of (trim_space s)

-- What stands behind the dash of an item.
abbrev pub item_text : Text → Text
item_text [] = []
item_text (c ∷ []) = []
item_text (c ∷ d ∷ s) = trim_space s

abbrev pub append_item : Items → Value → Items
append_item no_items v = item v no_items
append_item (item w rest) v = item w (append_item rest v)

abbrev pub append_field : Fields → Text → Value → Fields
append_field no_fields k v = field k v no_fields
append_field (field j w rest) k v = field j w (append_field rest k v)

abbrev pub has_key : Text → Fields → Bool
has_key k m = elim (get_field k m) [ none ↦ false | some _ ↦ true ]

-- The next line lies deeper than `indent`; or on it, and is an item.
abbrev pub is_deeper : ℕ → List Line → Bool
is_deeper indent [] = false
is_deeper indent (next ∷ lines) = ltb indent next.indent

abbrev pub is_item_at : ℕ → List Line → Bool
is_item_at indent [] = false
is_item_at indent (next ∷ lines) = eqb next.indent indent && is_seq_item next.content

abbrev pub next_indent : List Line → ℕ
next_indent [] = 0
next_indent (next ∷ lines) = next.indent

-- The first line of a mapping that begins behind a dash.
abbrev pub dash_line : ℕ → Text → Text → Line
dash_line indent key kv = record { indent = indent + 2; content = key ++ codes ": " ++ kv }

-- A value and the lines behind it; the error none is that of fuel that ran out.
abbrev pub Parsed : Type 0
Parsed = Result (Option YamlError) (Value × List Line)

unfoldable mutual
  unfolding is_seq_item split_key inline_value get_field

  -- parseBlock
  pub parse_block : ℕ → ℕ → List Line → Parsed
  parse_block zero indent lines = err none
  parse_block (suc n) indent [] = ok (nil_value, [])
  parse_block (suc n) indent (cur ∷ lines) = elim (ltb cur.indent indent) [
    | true ↦ ok (nil_value, cur ∷ lines)
    | false ↦ elim (is_seq_item cur.content) [
      | true ↦ parse_seq n cur.indent no_items (cur ∷ lines)
      | false ↦ parse_map n cur.indent no_fields (cur ∷ lines)
    ]
  ]

  -- The loop of parseSeq, with the items so far.
  pub parse_seq : ℕ → ℕ → Items → List Line → Parsed
  parse_seq zero indent seq lines = err none
  parse_seq (suc n) indent seq [] = ok (seq_value seq, [])
  parse_seq (suc n) indent seq (cur ∷ lines) =
      elim (eqb cur.indent indent && is_seq_item cur.content) [
        | false ↦ ok (seq_value seq, cur ∷ lines)
        | true ↦ elim (is_empty (item_text cur.content)) [
          | true ↦ elim (is_deeper indent lines) [
            | true ↦ do
              r ← parse_block n (next_indent lines) lines
              parse_seq n indent (append_item seq r.0) r.1
            | false ↦ parse_seq n indent (append_item seq nil_value) lines
          ]
          | false ↦ elim (split_key (item_text cur.content)) [
            | some (key, kv) ↦ do
              r ← parse_map n (indent + 2) no_fields (dash_line indent key kv ∷ lines)
              parse_seq n indent (append_item seq r.0) r.1
            | none ↦ do
              v ← map_err (λ e. some e) (inline_value (item_text cur.content))
              parse_seq n indent (append_item seq v) lines
          ]
        ]
      ]

  -- The loop of parseMap, with the fields so far.
  pub parse_map : ℕ → ℕ → Fields → List Line → Parsed
  parse_map zero indent m lines = err none
  parse_map (suc n) indent m [] = ok (map_value m, [])
  parse_map (suc n) indent m (cur ∷ lines) = elim (ltb cur.indent indent) [
    | true ↦ ok (map_value m, cur ∷ lines)
    | false ↦ elim (ltb indent cur.indent) [
      | true ↦ err (some inconsistent_indent)
      | false ↦ elim (is_seq_item cur.content) [
        | true ↦ ok (map_value m, cur ∷ lines)
        | false ↦ elim (split_key cur.content) [
          | none ↦ err (some bad_mapping_line)
          | some (key, rest) ↦ elim (has_key key m) [
            | true ↦ err (some repeated_key)
            | false ↦ do
              r ← parse_field n indent rest lines
              parse_map n indent (append_field m key r.0) r.1
          ]
        ]
      ]
    ]
  ]

  -- The value of a field: what stands behind its key, or the block on the next lines.
  pub parse_field : ℕ → ℕ → Text → List Line → Parsed
  parse_field zero indent rest lines = err none
  parse_field (suc n) indent rest lines = elim (is_empty rest) [
    | false ↦ do v ← map_err (λ e. some e) (inline_value rest); ok (v, lines)
    | true ↦ elim (is_deeper indent lines) [
      | true ↦ parse_block n (next_indent lines) lines
      | false ↦ elim (is_item_at indent lines) [
        | true ↦ parse_seq n indent no_items lines
        | false ↦ ok (nil_value, lines)
      ]
    ]
  ]

-- The fuel that a parse of these lines has.
abbrev pub fuel_for : List Line → ℕ
fuel_for lines = 4 * length lines + 4

-- What is left of Parse when the block is read.
abbrev pub finish : Value × List Line → Result (Option YamlError) Fields
finish (map_value m, []) = ok m
finish (v, cur ∷ lines) = err (some leftover_lines)
finish (v, []) = err (some not_top_mapping)

unfoldable pub parse_lines : List Line → Result (Option YamlError) Fields
unfolding parse_block
parse_lines [] = ok no_fields
parse_lines (cur ∷ lines) = do
  r ← parse_block (fuel_for (cur ∷ lines)) cur.indent (cur ∷ lines)
  finish r

-- Parse
unfoldable pub parse_yaml_text : Text → Result (Option YamlError) Fields
unfolding parse_lines new_parser
parse_yaml_text src = do lines ← map_err (λ e. some e) (new_parser src); parse_lines lines
