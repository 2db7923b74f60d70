-- ===== src/Yaml.antt =====
-- internal/yamlmini/yaml.go: the scalars and the lines of the subset of YAML. The numbers of the lines,
-- which only the messages use, are left out.
pub mod Blocks
pub mod Quoted
pub mod Tests
use hermes_security_skills.Base.{
  Bool, List, Option, Result, [], all, deny_if, eqb, err, false, if◌then◌else◌, leb, length,
  map_some, none, not, ok, some, true, ℕ, ◌&&◌, ◌>>=◌, ◌>>◌, ◌||◌, ◌∷◌,
}
use hermes_security_skills.Base.Text.{
  Text, atoi, codes, contains_rune, has_prefix, is_blank, is_empty, split, trim_space, ◌==◌,
}
use hermes_security_skills.Document.{Value, bool_value, int_value, nil_value, string_value}

pub data YamlError : Type 0 where
  tab_indent second_document inconsistent_indent bad_mapping_line repeated_key : YamlError
  open_flow flow_mapping open_string after_string bad_int bad_escape : YamlError
  leftover_lines not_top_mapping : YamlError

pub record Line : Type 0 where
  pub indent : ℕ
  pub content : Text

-- strings.TrimRight(r, "\r")
abbrev pub put_unless_cr : ℕ → Text → Text
put_unless_cr c [] = if eqb c 13 then [] else c ∷ []
put_unless_cr c (d ∷ s) = c ∷ d ∷ s

unfoldable pub trim_cr : Text → Text
trim_cr [] = []
trim_cr (c ∷ s) = put_unless_cr c (trim_cr s)

-- The spaces and tabs at the start of a line.
unfoldable pub leading : Text → Text
leading [] = []
leading (c ∷ s) = let rest = leading s in if eqb c b' ' || eqb c 9 then c ∷ rest else []

-- The loop of newParser; `started` tells whether a line was taken.
unfoldable pub source_lines : Bool → List Text → Result YamlError (List Line)
unfolding trim_cr leading contains_rune has_prefix
source_lines started [] = ok []
source_lines started (raw ∷ raws) =
    let r = trim_cr raw in
    let trimmed = trim_space r in
    elim (contains_rune (leading r) 9) [
      | true ↦ err tab_indent
      | false ↦ elim (is_empty trimmed || has_prefix trimmed (codes "#")) [
        | true ↦ source_lines started raws
        | false ↦ elim (has_prefix trimmed (codes "---") || has_prefix trimmed (codes "...")) [
          | true ↦ elim started [ true ↦ err second_document | false ↦ source_lines false raws ]
          | false ↦ do
            lines ← source_lines true raws
            ok (record { indent = length (leading r); content = trimmed } ∷ lines)
        ]
      ]
    ]

-- newParser
unfoldable pub new_parser : Text → Result YamlError (List Line)
unfolding split source_lines
new_parser src = source_lines false (split 10 src)

unfoldable pub is_seq_item : Text → Bool
unfolding has_prefix ◌==◌
is_seq_item content = content == codes "-" || has_prefix content (codes "- ")

-- `i+1 == len(s) || s[i+1] == ' '` for what stands behind a colon
abbrev pub ends_key : Text → Bool
ends_key [] = true
ends_key (c ∷ s) = eqb c b' '

-- The text before the first colon that ends a key, and the text behind it.
unfoldable pub at_colon : Text → Option (Text × Text)
at_colon [] = none
at_colon (c ∷ s) =
    let rest = map_some (λ (p : Text × Text). (c ∷ p.0, p.1)) (at_colon s) in
    if eqb c b':' && ends_key s then some ([], s) else rest

-- splitKey
unfoldable pub split_key : Text → Option (Text × Text)
unfolding at_colon
split_key s = elim (at_colon s) [
  | none ↦ none
  | some (k, v) ↦ if is_blank k then none else some (trim_space k, trim_space v)
]

-- The body of a string in double quotes, behind the opening one, and what follows the closing one.
unfoldable pub double_body : Text → Option (Text × Text)
double_body [] = none
double_body (c ∷ []) = if eqb c b'\\' then none else if eqb c b'"' then some ([], []) else none
double_body (c ∷ d ∷ s) =
    let skipped = map_some (λ (p : Text × Text). (c ∷ d ∷ p.0, p.1)) (double_body s) in
    let next = map_some (λ (p : Text × Text). (c ∷ p.0, p.1)) (double_body (d ∷ s)) in
    if eqb c b'\\' then skipped else if eqb c b'"' then some ([], d ∷ s) else next

-- The same for single quotes, of which two stand for one.
unfoldable pub single_body : Text → Option (Text × Text)
single_body [] = none
single_body (c ∷ []) = if eqb c 39 then some ([], []) else none
single_body (c ∷ d ∷ s) =
    let skipped = map_some (λ (p : Text × Text). (c ∷ d ∷ p.0, p.1)) (single_body s) in
    let next = map_some (λ (p : Text × Text). (c ∷ p.0, p.1)) (single_body (d ∷ s)) in
    if eqb c 39 then if eqb d 39 then skipped else some ([], d ∷ s) else next

-- strings.ReplaceAll(body, "''", "'")
unfoldable pub join_quotes : Text → Text
join_quotes [] = []
join_quotes (c ∷ []) = c ∷ []
join_quotes (c ∷ d ∷ s) =
    let joined = 39 ∷ join_quotes s in
    let next = c ∷ join_quotes (d ∷ s) in if eqb c 39 && eqb d 39 then joined else next

-- The character that an escape stands for.
unfoldable pub escaped : ℕ → Option ℕ
escaped c =
    if eqb c b'n'
    then some 10
    else if eqb c b't'
    then some 9
    else if eqb c b'r'
    then some 13
    else if eqb c b'"'
    then some b'"'
    else if eqb c b'\\'
    then some b'\\'
    else none

-- unescapeDouble
unfoldable pub unescape_double : Text → Result YamlError Text
unfolding escaped
unescape_double [] = ok []
unescape_double (c ∷ []) = if eqb c b'\\' then err bad_escape else ok (c ∷ [])
unescape_double (c ∷ d ∷ s) =
    let next = (do t ← unescape_double (d ∷ s); ok (c ∷ t)) in
    let after = unescape_double s in
    if not (eqb c b'\\')
    then next
    else elim (escaped d) [ none ↦ err bad_escape | some e ↦ do t ← after; ok (e ∷ t) ]

-- The text up to the first " #".
unfoldable pub cut_comment : Text → Text
unfolding has_prefix
cut_comment [] = []
cut_comment (c ∷ s) =
    let rest = cut_comment s in if has_prefix (c ∷ s) (codes " #") then [] else c ∷ rest

abbrev pub is_digit : ℕ → Bool
is_digit c = leb b'0' c && leb c b'9'

abbrev pub are_digits : Text → Bool
are_digits [] = false
are_digits (c ∷ s) = all is_digit (c ∷ s)

-- isInt
unfoldable pub is_int : Text → Bool
unfolding all
is_int [] = false
is_int (c ∷ s) = if eqb c b'-' then are_digits s else are_digits (c ∷ s)

-- A scalar without quotes, its comment cut off.
unfoldable pub plain_scalar : Text → Result YamlError Value
unfolding is_int ◌==◌ atoi
plain_scalar s =
    if is_empty s
    then ok nil_value
    else if s == codes "true"
    then ok (bool_value true)
    else if s == codes "false"
    then ok (bool_value false)
    else if s == codes "~" || s == codes "null"
    then ok nil_value
    else if is_int s
    then elim (atoi s) [ none ↦ err bad_int | some n ↦ ok (int_value n) ]
    else ok (string_value s)

-- What may follow a string in quotes.
abbrev pub closed : Text → Bool
closed rest = is_empty (trim_space rest) || has_prefix (trim_space rest) (codes "#")

abbrev pub quoted_scalar :
    Option (Text × Text) → (Text → Result YamlError Text) → Result YamlError Value
quoted_scalar none read = err open_string
quoted_scalar (some (body, rest)) read = do
  deny_if (not (closed rest)) after_string
  s ← read body
  ok (string_value s)

-- parseScalar
unfoldable pub parse_scalar : Text → Result YamlError Value
unfolding single_body double_body join_quotes unescape_double cut_comment plain_scalar
parse_scalar [] = plain_scalar []
parse_scalar (c ∷ []) = plain_scalar (trim_space (cut_comment (c ∷ [])))
parse_scalar (c ∷ d ∷ s) =
    if eqb c 39
    then quoted_scalar (single_body (d ∷ s)) (λ body. ok (join_quotes body))
    else if eqb c b'"'
    then quoted_scalar (double_body (d ∷ s)) unescape_double
    else plain_scalar (trim_space (cut_comment (c ∷ d ∷ s)))
