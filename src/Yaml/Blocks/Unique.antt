-- ===== src/Yaml/Blocks/Unique.antt =====
-- internal/yamlmini/yaml.go: the keys of the mappings that a parse returns.
use mathlib.Core.Path.{subst}
use hermes_security_skills.Base.{
  >>=-eq-ok, Bool-cases, List, Option, Option-cases, Result, Result-cases, [], eqb, err, false, inl,
  inr, none, ok, ok-injective, refl, some, ◌||◌, ◌∷◌, ◌≡◌,
}
use hermes_security_skills.Base.Text.{Text, atoi, codes, is_blank, is_empty, trim_space, ◌==◌}
use hermes_security_skills.Base.Text.Laws.{==_apart}
use hermes_security_skills.Document.{
  Fields, Items, Value, bool_value, field, get_field, int_value, item, map_value, nil_value,
  no_fields, no_items, seq_value, string_value,
}
use hermes_security_skills.Yaml.{
  YamlError, closed, cut_comment, double_body, is_int, join_quotes, parse_scalar, plain_scalar,
  quoted_scalar, single_body, unescape_double,
}
use hermes_security_skills.Yaml.Blocks.{
  append_field, append_item, before_bracket, flow_seq, has_key, inline_of, inline_value, read_parts,
  split_flow,
}

abbrev mutual
  -- In the value, each mapping has each of its keys once.
  pub IsUnique : Value → Type 0
  IsUnique nil_value = Unit
  IsUnique (bool_value b) = Unit
  IsUnique (int_value n) = Unit
  IsUnique (string_value s) = Unit
  IsUnique (seq_value vs) = AreUnique vs
  IsUnique (map_value m) = HasUniqueKeys m

  pub AreUnique : Items → Type 0
  AreUnique no_items = Unit
  AreUnique (item v vs) = IsUnique v × AreUnique vs

  pub HasUniqueKeys : Fields → Type 0
  HasUniqueKeys no_fields = Unit
  HasUniqueKeys (field k v m) = (has_key k m ≡ false) × IsUnique v × HasUniqueKeys m

pub append_item-AreUnique :
    (vs : Items) (v : Value) → AreUnique vs → IsUnique v → AreUnique (append_item vs v)
append_item-AreUnique no_items v h k = (k, tt)
append_item-AreUnique (item w vs) v (here, rest) k = (here, append_item-AreUnique vs v rest k)

has_key-later :
    (j k : Text) (v : Value) (m : Fields)
    → has_key j (field k v m) ≡ false
    → (k == j ≡ false) × (has_key j m ≡ false)
unfolding get_field
has_key-later j k v m h = elim (Bool-cases (k == j)) [
  | inl e ↦ (let impossible = rw (e, has_key, get_field) at h in cc)
  | inr e ↦ (e, rw (e, has_key, get_field) at h)
]

has_key-append_field :
    (j k : Text) (v : Value) (m : Fields)
    → has_key j m ≡ false
    → k == j ≡ false
    → has_key j (append_field m k v) ≡ false
unfolding get_field
has_key-append_field j k v no_fields h e = rw (e, has_key, get_field) refl
has_key-append_field j k v (field i w m) h e =
    let (other, absent_later) = has_key-later j i w m h in
    rw (other, has_key, get_field) (has_key-append_field j k v m absent_later e)

pub append_field-HasUniqueKeys :
    (m : Fields) (k : Text) (v : Value)
    → HasUniqueKeys m
    → has_key k m ≡ false
    → IsUnique v
    → HasUniqueKeys (append_field m k v)
unfolding get_field
append_field-HasUniqueKeys no_fields k v h unused u = (refl, u, tt)
append_field-HasUniqueKeys (field j w m) k v (first, value, rest) unused u =
    let (other, absent_later) = has_key-later k j w m unused in
    (
      has_key-append_field j k v m first (==_apart j k other),
      value,
      append_field-HasUniqueKeys m k v rest absent_later u,
    )

-- What a reader of scalars or of values in a line returns.
abbrev pub GivesUnique : Result YamlError Value → Type 0
GivesUnique (err e) = Unit
GivesUnique (ok v) = IsUnique v

plain_scalar-GivesUnique : (s : Text) → GivesUnique (plain_scalar s)
unfolding plain_scalar
plain_scalar-GivesUnique s = elim (Bool-cases (is_empty s)) [
  | inl e ↦ rw (e, plain_scalar) tt
  | inr e ↦ elim (Bool-cases (s == codes "true")) [
    | inl f ↦ rw (e, f, plain_scalar) tt
    | inr f ↦ elim (Bool-cases (s == codes "false")) [
      | inl g ↦ rw (e, f, g, plain_scalar) tt
      | inr g ↦ elim (Bool-cases (s == codes "~" || s == codes "null")) [
        | inl h ↦ rw (e, f, g, h, plain_scalar) tt
        | inr h ↦ elim (Bool-cases (is_int s)) [
          | inr i ↦ rw (e, f, g, h, i, plain_scalar) tt
          | inl i ↦ elim (Option-cases (atoi s)) [
            | inl n ↦ rw (e, f, g, h, i, n, plain_scalar) tt
            | inr (_, n) ↦ rw (e, f, g, h, i, n, plain_scalar) tt
          ]
        ]
      ]
    ]
  ]
]

quoted_scalar-GivesUnique :
    (found : Option (Text × Text)) (read : Text → Result YamlError Text)
    → GivesUnique (quoted_scalar found read)
quoted_scalar-GivesUnique none read = tt
quoted_scalar-GivesUnique (some (body, rest)) read = elim (Bool-cases (closed rest)) [
  | inr e ↦ rw e tt
  | inl e ↦ elim (Result-cases (read body)) [
    | inl (s, f) ↦ rw (e, f) tt
    | inr (_, f) ↦ rw (e, f) tt
  ]
]

parse_scalar-GivesUnique : (s : Text) → GivesUnique (parse_scalar s)
unfolding parse_scalar
parse_scalar-GivesUnique [] = plain_scalar-GivesUnique []
parse_scalar-GivesUnique (c ∷ []) = plain_scalar-GivesUnique (trim_space (cut_comment (c ∷ [])))
parse_scalar-GivesUnique (c ∷ d ∷ s) = elim (Bool-cases (eqb c 39)) [
  | inl e ↦
      rw (e, parse_scalar)
        (quoted_scalar-GivesUnique (single_body (d ∷ s)) (λ body. ok (join_quotes body)))
  | inr e ↦ elim (Bool-cases (eqb c b'"')) [
    | inl f ↦
        rw (e, f, parse_scalar) (quoted_scalar-GivesUnique (double_body (d ∷ s)) unescape_double)
    | inr f ↦
        rw (e, f, parse_scalar) (plain_scalar-GivesUnique (trim_space (cut_comment (c ∷ d ∷ s))))
  ]
]

scalar-IsUnique : (s : Text) (v : Value) → parse_scalar s ≡ ok v → IsUnique v
scalar-IsUnique s v h = subst GivesUnique h (parse_scalar-GivesUnique s)

read_parts-AreUnique : (parts : List Text) (vs : Items) → read_parts parts ≡ ok vs → AreUnique vs
unfolding read_parts
read_parts-AreUnique [] vs h = subst AreUnique (ok-injective h) tt
read_parts-AreUnique (part ∷ parts) vs h =
    let (v, first, h1) = >>=-eq-ok (parse_scalar (trim_space part)) _ h in
    let (ws, later, h2) = >>=-eq-ok (read_parts parts) _ h1 in
    subst AreUnique (ok-injective h2)
      (scalar-IsUnique (trim_space part) v first, read_parts-AreUnique parts ws later)

flow_seq-GivesUnique : (s : Text) → GivesUnique (flow_seq s)
unfolding flow_seq
flow_seq-GivesUnique s = elim (Option-cases (before_bracket s)) [
  | inl e ↦ rw (e, flow_seq) tt
  | inr (inner, e) ↦ elim (Bool-cases (is_blank inner)) [
    | inl f ↦ rw (e, f, flow_seq) tt
    | inr f ↦ elim (Result-cases (read_parts (split_flow false false (trim_space inner)))) [
      | inr (_, g) ↦ rw (e, f, g, flow_seq) tt
      | inl (vs, g) ↦ rw (e, f, g, flow_seq) (read_parts-AreUnique _ vs g)
    ]
  ]
]

inline_of-GivesUnique : (s : Text) → GivesUnique (inline_of s)
inline_of-GivesUnique [] = tt
inline_of-GivesUnique (c ∷ s) = elim (Bool-cases (eqb c b'#')) [
  | inl e ↦ rw e tt
  | inr e ↦ elim (Bool-cases (eqb c b'[')) [
    | inl f ↦ rw (e, f) (flow_seq-GivesUnique s)
    | inr f ↦ elim (Bool-cases (eqb c b'{')) [
      | inl g ↦ rw (e, f, g) tt
      | inr g ↦ rw (e, f, g) (parse_scalar-GivesUnique (c ∷ s))
    ]
  ]
]

pub inline_value-GivesUnique : (s : Text) → GivesUnique (inline_value s)
unfolding inline_value
inline_value-GivesUnique s = inline_of-GivesUnique (trim_space s)
