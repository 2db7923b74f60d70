-- ===== src/Yaml/Blocks/Fuel.antt =====
-- internal/yamlmini/yaml.go: the lines that a block leaves, and the fuel that it needs.
use hermes_security_skills.Base.{
  Bool-cases, List, Option-cases, Result, [], ap, arith, eqb, err, false, inl, inr, length, ltb,
  map_err, none, ok, refl, some, suc, zero, ℕ, ◌&&◌, ◌*◌, ◌+◌, ◌<◌, ◌>>=◌, ◌∷◌, ◌≡◌, ◌≤◌, ◌⊎◌,
}
use hermes_security_skills.Base.Text.{Text, is_empty}
use hermes_security_skills.Document.{Fields, Items, Value, nil_value, no_fields, no_items}
use hermes_security_skills.Yaml.{Line, YamlError, is_seq_item, split_key}
use hermes_security_skills.Yaml.Blocks.{
  Parsed, append_field, append_item, dash_line, has_key, inline_value, is_deeper, is_item_at,
  item_text, next_indent, parse_block, parse_field, parse_map, parse_seq,
}

-- The fuel did not run out, and no more lines are left than there were.
abbrev pub Fits : List Line → Parsed → Type 0
Fits lines (err none) = ⊥
Fits lines (err (some e)) = Unit
Fits lines (ok (v, left)) = length left ≤ length lines

-- A mapping takes a line, or leaves all as they are.
abbrev pub FitsMap : List Line → Parsed → Type 0
FitsMap lines (err none) = ⊥
FitsMap lines (err (some e)) = Unit
FitsMap lines (ok (v, left)) = (length left < length lines) ⊎ (left ≡ lines)

FitsMap-Fits : (lines : List Line) (p : Parsed) → FitsMap lines p → Fits lines p
FitsMap-Fits lines (err none) h = h
FitsMap-Fits lines (err (some e)) h = tt
FitsMap-Fits lines (ok (v, left)) (inl h) = omega (arith, h)
FitsMap-Fits lines (ok (v, left)) (inr h) = omega (arith, ap length h)

-- The rest of a loop, behind a value that fits into the lines.
Fits->>= :
    (few lines : List Line) (p : Parsed) (rest : Value × List Line → Parsed)
    → Fits few p
    → ((v : Value) (left : List Line)
        → p ≡ ok (v, left)
        → length left ≤ length few
        → Fits lines (rest (v, left)))
    → Fits lines (p >>= rest)
Fits->>= few lines (err none) rest h k = absurd h
Fits->>= few lines (err (some e)) rest h k = tt
Fits->>= few lines (ok (v, left)) rest h k = k v left refl h

inline_Fits :
    (lines : List Line) (r : Result YamlError Value) (rest : Value → Parsed)
    → ((v : Value) → Fits lines (rest v))
    → Fits lines (map_err (λ e. some e) r >>= rest)
inline_Fits lines (err e) rest k = tt
inline_Fits lines (ok v) rest k = k v

FitsMap->>= :
    (few lines : List Line) (p : Parsed) (rest : Value × List Line → Parsed)
    → FitsMap few p
    → ((v : Value) (left : List Line)
        → (length left < length few) ⊎ (left ≡ few)
        → Fits lines (rest (v, left)))
    → Fits lines (p >>= rest)
FitsMap->>= few lines (err none) rest h k = absurd h
FitsMap->>= few lines (err (some e)) rest h k = tt
FitsMap->>= few lines (ok (v, left)) rest h k = k v left h

Fits-more :
    (few lines : List Line) (p : Parsed) → length few ≤ length lines → Fits few p → Fits lines p
Fits-more few lines (err none) h k = k
Fits-more few lines (err (some e)) h k = tt
Fits-more few lines (ok (v, left)) h k = omega (arith, h, k)

-- A mapping that took the line with its key, and then what its rest leaves.
FitsMap-taken :
    (few : List Line) (cur : Line) (lines : List Line) (p : Parsed)
    → length few ≤ length lines
    → FitsMap few p
    → FitsMap (cur ∷ lines) p
FitsMap-taken few cur lines (err none) h k = k
FitsMap-taken few cur lines (err (some e)) h k = tt
FitsMap-taken few cur lines (ok (v, left)) h (inl k) = inl (omega (arith, h, k))
FitsMap-taken few cur lines (ok (v, left)) h (inr k) = inl (omega (arith, h, ap length k))

Fits->>=-FitsMap :
    (few : List Line) (cur : Line) (lines : List Line) (p : Parsed)
    (rest : Value × List Line → Parsed)
    → Fits few p
    → ((v : Value) (left : List Line)
        → length left ≤ length few
        → FitsMap (cur ∷ lines) (rest (v, left)))
    → FitsMap (cur ∷ lines) (p >>= rest)
Fits->>=-FitsMap few cur lines (err none) rest h k = absurd h
Fits->>=-FitsMap few cur lines (err (some e)) rest h k = tt
Fits->>=-FitsMap few cur lines (ok (v, left)) rest h k = k v left h

-- The items end at a line that lies deeper.
parse_seq_ends :
    (n indent : ℕ) (seq : Items) (key kv : Text) (lines : List Line)
    → 1 ≤ n
    → Fits
        (dash_line indent key kv ∷ lines)
        (parse_seq n indent seq (dash_line indent key kv ∷ lines))
unfolding parse_block
parse_seq_ends zero indent seq key kv lines h = absurd (omega (arith, h))
parse_seq_ends (suc n) indent seq key kv lines h =
    let apart : eqb (indent + 2) indent ≡ false = ground arith in
    rw (apart, parse_seq) (omega arith)

mutual
  unfolding parse_block

  pub parse_block-Fits :
      (n indent : ℕ) (lines : List Line)
      → 4 * length lines + 3 ≤ n
      → Fits lines (parse_block n indent lines)
  parse_block-Fits zero indent lines h = absurd (omega (arith, h))
  parse_block-Fits (suc n) indent [] h = omega arith
  parse_block-Fits (suc n) indent (cur ∷ lines) h = elim (Bool-cases (ltb cur.indent indent)) [
    | inl e ↦ rw (e, parse_block) (omega arith)
    | inr e ↦ elim (Bool-cases (is_seq_item cur.content)) [
      | inl f ↦
          rw (e, f, parse_block)
            (parse_seq-Fits n cur.indent no_items (cur ∷ lines) (omega (arith, h)))
      | inr f ↦
          rw (e, f, parse_block)
            (FitsMap-Fits (cur ∷ lines) _
              (parse_map-FitsMap n cur.indent no_fields (cur ∷ lines) (omega (arith, h))))
    ]
  ]

  parse_seq-Fits :
      (n indent : ℕ) (seq : Items) (lines : List Line)
      → 4 * length lines + 2 ≤ n
      → Fits lines (parse_seq n indent seq lines)
  parse_seq-Fits zero indent seq lines h = absurd (omega (arith, h))
  parse_seq-Fits (suc n) indent seq [] h = omega arith
  parse_seq-Fits (suc n) indent seq (cur ∷ lines) h =
      elim (Bool-cases (eqb cur.indent indent && is_seq_item cur.content)) [
        | inr e ↦ rw (e, parse_seq) (omega arith)
        | inl e ↦ elim (Bool-cases (is_empty (item_text cur.content))) [
          | inl f ↦ elim (Bool-cases (is_deeper indent lines)) [
            | inl g ↦
                rw (e, f, g, parse_seq)
                  (Fits->>= lines (cur ∷ lines) _ _
                    (parse_block-Fits n (next_indent lines) lines (omega (arith, h)))
                    (λ v left _ few.
                      Fits-more left (cur ∷ lines) _ (omega (arith, few))
                        (parse_seq-Fits n indent (append_item seq v) left (omega (arith, h, few)))))
            | inr g ↦
                rw (e, f, g, parse_seq)
                  (Fits-more lines (cur ∷ lines) _ (omega arith)
                    (parse_seq-Fits n indent (append_item seq nil_value) lines (omega (arith, h))))
          ]
          | inr f ↦ elim (Option-cases (split_key (item_text cur.content))) [
            | inl g ↦
                rw (e, f, g, parse_seq)
                  (inline_Fits (cur ∷ lines) _ _ (λ v.
                    Fits-more lines (cur ∷ lines) _ (omega arith)
                      (parse_seq-Fits n indent (append_item seq v) lines (omega (arith, h)))))
            | inr ((key, kv), g) ↦
                rw (e, f, g, parse_seq)
                  (FitsMap->>= (dash_line indent key kv ∷ lines) (cur ∷ lines) _ _
                    (parse_map-FitsMap n (indent + 2) no_fields (dash_line indent key kv ∷ lines)
                      (omega (arith, h)))
                    (λ v left where_left. elim where_left [
                      | inl few ↦
                          Fits-more left (cur ∷ lines) _ (omega (arith, few)) (
                            parse_seq-Fits n indent (append_item seq v) left
                              (omega (arith, h, few)))
                      | inr same ↦ rw same (
                          Fits-more (dash_line indent key kv ∷ lines) (cur ∷ lines) _ (omega arith)
                            (parse_seq_ends n indent (append_item seq v) key kv lines
                              (omega (arith, h))))
                    ]))
          ]
        ]
      ]

  parse_map-FitsMap :
      (n indent : ℕ) (m : Fields) (lines : List Line)
      → 4 * length lines + 1 ≤ n
      → FitsMap lines (parse_map n indent m lines)
  parse_map-FitsMap zero indent m lines h = absurd (omega (arith, h))
  parse_map-FitsMap (suc n) indent m [] h = inr refl
  parse_map-FitsMap (suc n) indent m (cur ∷ lines) h = elim (Bool-cases (ltb cur.indent indent)) [
    | inl e ↦ rw (e, parse_map) (inr refl)
    | inr e ↦ elim (Bool-cases (ltb indent cur.indent)) [
      | inl f ↦ rw (e, f, parse_map) tt
      | inr f ↦ elim (Bool-cases (is_seq_item cur.content)) [
        | inl g ↦ rw (e, f, g, parse_map) (inr refl)
        | inr g ↦ elim (Option-cases (split_key cur.content)) [
          | inl k ↦ rw (e, f, g, k, parse_map) tt
          | inr ((key, rest), k) ↦ elim (Bool-cases (has_key key m)) [
            | inl d ↦ rw (e, f, g, k, d, parse_map) tt
            | inr d ↦
                rw (e, f, g, k, d, parse_map)
                  (Fits->>=-FitsMap lines cur lines _ _
                    (parse_field-Fits n indent rest lines (omega (arith, h)))
                    (λ v left few. FitsMap-taken left cur lines _ few (
                      parse_map-FitsMap n indent (append_field m key v) left
                        (omega (arith, h, few)))))
          ]
        ]
      ]
    ]
  ]

  parse_field-Fits :
      (n indent : ℕ) (rest : Text) (lines : List Line)
      → 4 * length lines + 4 ≤ n
      → Fits lines (parse_field n indent rest lines)
  parse_field-Fits zero indent rest lines h = absurd (omega (arith, h))
  parse_field-Fits (suc n) indent rest lines h = elim (Bool-cases (is_empty rest)) [
    | inr e ↦ rw (e, parse_field) (inline_Fits lines (inline_value rest) _ (λ v. omega arith))
    | inl e ↦ elim (Bool-cases (is_deeper indent lines)) [
      | inl f ↦
          rw (e, f, parse_field) (parse_block-Fits n (next_indent lines) lines (omega (arith, h)))
      | inr f ↦ elim (Bool-cases (is_item_at indent lines)) [
        | inl g ↦
            rw (e, f, g, parse_field) (parse_seq-Fits n indent no_items lines (omega (arith, h)))
        | inr g ↦ rw (e, f, g, parse_field) (omega arith)
      ]
    ]
  ]
