-- ===== src/Yaml/Blocks/Keys.antt =====
-- internal/yamlmini/yaml.go: the keys of the mappings, through the parse of the blocks.
use hermes_security_skills.Base.{
  Bool-cases, List, Option, Option-cases, Result, Result-cases, [], arith, eqb, err, inl, inr, ltb,
  map_err, none, ok, some, suc, zero, ℕ, ◌&&◌, ◌+◌, ◌>>=◌, ◌∷◌,
}
use hermes_security_skills.Base.Text.{Text, is_empty}
use hermes_security_skills.Document.{
  Fields, Items, Value, bool_value, int_value, map_value, nil_value, no_fields, no_items, seq_value,
  string_value,
}
use hermes_security_skills.Yaml.{Line, YamlError, is_seq_item, new_parser, split_key}
use hermes_security_skills.Yaml.Blocks.{
  Parsed, append_field, append_item, dash_line, finish, fuel_for, has_key, inline_value, is_deeper,
  is_item_at, item_text, next_indent, parse_block, parse_field, parse_lines, parse_map, parse_seq,
  parse_yaml_text,
}
use hermes_security_skills.Yaml.Blocks.Fuel.{Fits, parse_block-Fits}
use hermes_security_skills.Yaml.Blocks.Unique.{
  AreUnique, GivesUnique, HasUniqueKeys, IsUnique, append_field-HasUniqueKeys,
  append_item-AreUnique, inline_value-GivesUnique,
}

-- What the parse of a block returns.
abbrev pub ReadsUnique : Parsed → Type 0
ReadsUnique (err e) = Unit
ReadsUnique (ok (v, left)) = IsUnique v

ReadsUnique->>= :
    (p : Parsed) (rest : Value × List Line → Parsed)
    → ReadsUnique p
    → ((v : Value) (left : List Line) → IsUnique v → ReadsUnique (rest (v, left)))
    → ReadsUnique (p >>= rest)
ReadsUnique->>= (err e) rest h k = tt
ReadsUnique->>= (ok (v, left)) rest h k = k v left h

inline_ReadsUnique :
    (r : Result YamlError Value) (rest : Value → Parsed)
    → GivesUnique r
    → ((v : Value) → IsUnique v → ReadsUnique (rest v))
    → ReadsUnique (map_err (λ e. some e) r >>= rest)
inline_ReadsUnique (err e) rest h k = tt
inline_ReadsUnique (ok v) rest h k = k v h

mutual
  unfolding parse_block

  pub parse_block-ReadsUnique :
      (n indent : ℕ) (lines : List Line) → ReadsUnique (parse_block n indent lines)
  parse_block-ReadsUnique zero indent lines = tt
  parse_block-ReadsUnique (suc n) indent [] = tt
  parse_block-ReadsUnique (suc n) indent (cur ∷ lines) = elim (Bool-cases (ltb cur.indent indent)) [
    | inl e ↦ rw (e, parse_block) tt
    | inr e ↦ elim (Bool-cases (is_seq_item cur.content)) [
      | inl f ↦
          rw (e, f, parse_block) (parse_seq-ReadsUnique n cur.indent no_items (cur ∷ lines) tt)
      | inr f ↦
          rw (e, f, parse_block) (parse_map-ReadsUnique n cur.indent no_fields (cur ∷ lines) tt)
    ]
  ]

  parse_seq-ReadsUnique :
      (n indent : ℕ) (seq : Items) (lines : List Line)
      → AreUnique seq
      → ReadsUnique (parse_seq n indent seq lines)
  parse_seq-ReadsUnique zero indent seq lines u = tt
  parse_seq-ReadsUnique (suc n) indent seq [] u = u
  parse_seq-ReadsUnique (suc n) indent seq (cur ∷ lines) u =
      let go : (v : Value) (left : List Line)
          → IsUnique v
          → ReadsUnique (parse_seq n indent (append_item seq v) left) =
        λ v left w.
          parse_seq-ReadsUnique n indent (append_item seq v) left
            (append_item-AreUnique seq v u w) in
      elim (Bool-cases (eqb cur.indent indent && is_seq_item cur.content)) [
        | inr e ↦ rw (e, parse_seq) u
        | inl e ↦ elim (Bool-cases (is_empty (item_text cur.content))) [
          | inl f ↦ elim (Bool-cases (is_deeper indent lines)) [
            | inl g ↦
                rw (e, f, g, parse_seq)
                  (ReadsUnique->>= _ _ (parse_block-ReadsUnique n (next_indent lines) lines) go)
            | inr g ↦ rw (e, f, g, parse_seq) (go nil_value lines tt)
          ]
          | inr f ↦ elim (Option-cases (split_key (item_text cur.content))) [
            | inl g ↦
                rw (e, f, g, parse_seq)
                  (inline_ReadsUnique _ _ (inline_value-GivesUnique (item_text cur.content))
                    (λ v w. go v lines w))
            | inr ((key, kv), g) ↦
                rw (e, f, g, parse_seq)
                  (ReadsUnique->>= _ _
                    (parse_map-ReadsUnique n (indent + 2) no_fields
                      (dash_line indent key kv ∷ lines) tt)
                    go)
          ]
        ]
      ]

  parse_map-ReadsUnique :
      (n indent : ℕ) (m : Fields) (lines : List Line)
      → HasUniqueKeys m
      → ReadsUnique (parse_map n indent m lines)
  parse_map-ReadsUnique zero indent m lines u = tt
  parse_map-ReadsUnique (suc n) indent m [] u = u
  parse_map-ReadsUnique (suc n) indent m (cur ∷ lines) u =
      elim (Bool-cases (ltb cur.indent indent)) [
        | inl e ↦ rw (e, parse_map) u
        | inr e ↦ elim (Bool-cases (ltb indent cur.indent)) [
          | inl f ↦ rw (e, f, parse_map) tt
          | inr f ↦ elim (Bool-cases (is_seq_item cur.content)) [
            | inl g ↦ rw (e, f, g, parse_map) u
            | inr g ↦ elim (Option-cases (split_key cur.content)) [
              | inl k ↦ rw (e, f, g, k, parse_map) tt
              | inr ((key, rest), k) ↦ elim (Bool-cases (has_key key m)) [
                | inl d ↦ rw (e, f, g, k, d, parse_map) tt
                | inr d ↦
                    rw (e, f, g, k, d, parse_map)
                      (ReadsUnique->>= _ _ (parse_field-ReadsUnique n indent rest lines)
                        (λ v left w.
                          parse_map-ReadsUnique n indent (append_field m key v) left
                            (append_field-HasUniqueKeys m key v u d w)))
              ]
            ]
          ]
        ]
      ]

  parse_field-ReadsUnique :
      (n indent : ℕ) (rest : Text) (lines : List Line)
      → ReadsUnique (parse_field n indent rest lines)
  parse_field-ReadsUnique zero indent rest lines = tt
  parse_field-ReadsUnique (suc n) indent rest lines = elim (Bool-cases (is_empty rest)) [
    | inr e ↦
        rw (e, parse_field)
          (inline_ReadsUnique (inline_value rest) _ (inline_value-GivesUnique rest) (λ v w. w))
    | inl e ↦ elim (Bool-cases (is_deeper indent lines)) [
      | inl f ↦ rw (e, f, parse_field) (parse_block-ReadsUnique n (next_indent lines) lines)
      | inr f ↦ elim (Bool-cases (is_item_at indent lines)) [
        | inl g ↦ rw (e, f, g, parse_field) (parse_seq-ReadsUnique n indent no_items lines tt)
        | inr g ↦ rw (e, f, g, parse_field) tt
      ]
    ]
  ]

-- What Parse may return: an error of its own, or a document with unique keys.
abbrev pub IsRead : Result (Option YamlError) Fields → Type 0
IsRead (err none) = ⊥
IsRead (err (some e)) = Unit
IsRead (ok doc) = HasUniqueKeys doc

finish-IsRead :
    (lines : List Line) (p : Parsed) → Fits lines p → ReadsUnique p → IsRead (p >>= finish)
finish-IsRead lines (err none) h u = h
finish-IsRead lines (err (some e)) h u = tt
finish-IsRead lines (ok (map_value m, [])) h u = u
finish-IsRead lines (ok (map_value m, cur ∷ left)) h u = tt
finish-IsRead lines (ok (nil_value, [])) h u = tt
finish-IsRead lines (ok (nil_value, cur ∷ left)) h u = tt
finish-IsRead lines (ok (bool_value b, [])) h u = tt
finish-IsRead lines (ok (bool_value b, cur ∷ left)) h u = tt
finish-IsRead lines (ok (int_value b, [])) h u = tt
finish-IsRead lines (ok (int_value b, cur ∷ left)) h u = tt
finish-IsRead lines (ok (string_value b, [])) h u = tt
finish-IsRead lines (ok (string_value b, cur ∷ left)) h u = tt
finish-IsRead lines (ok (seq_value b, [])) h u = tt
finish-IsRead lines (ok (seq_value b, cur ∷ left)) h u = tt

parse_lines-IsRead : (lines : List Line) → IsRead (parse_lines lines)
unfolding parse_lines
parse_lines-IsRead [] = tt
parse_lines-IsRead (cur ∷ lines) =
    let n = fuel_for (cur ∷ lines) in
    finish-IsRead (cur ∷ lines) (parse_block n cur.indent (cur ∷ lines))
      (parse_block-Fits n cur.indent (cur ∷ lines) (omega arith))
      (parse_block-ReadsUnique n cur.indent (cur ∷ lines))

-- Parse ends on every text: its fuel, 4 for each line and 4 more, does not run out. It returns an
-- error or a document, and in the document each mapping, at any depth, has each of its keys once.
pub parse_yaml_text-IsRead : (src : Text) → IsRead (parse_yaml_text src)
unfolding parse_yaml_text
parse_yaml_text-IsRead src = elim (Result-cases (new_parser src)) [
  | inl (lines, e) ↦ rw (e, parse_yaml_text) (parse_lines-IsRead lines)
  | inr (_, e) ↦ rw (e, parse_yaml_text) tt
]
