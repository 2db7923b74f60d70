-- ===== src/Yaml/Quoted.antt =====
-- internal/yamlmini/yaml.go: the strings in quotes that parseScalar reads, against two ways to write one.
use mathlib.Core.Path.{ap₂}
use hermes_security_skills.Base.{
  Bool-cases, Option, Option-cases, [], ap, arith, eqb, eqb_iff, false, if◌then◌else◌, inl, inr,
  map_some, none, ok, refl, some, sym, ℕ, ◌++◌, ◌>>=◌, ◌∙◌, ◌∷◌, ◌≡◌,
}
use hermes_security_skills.Base.Text.{Text, trim_space}
use hermes_security_skills.Document.{string_value}
use hermes_security_skills.Yaml.{
  double_body, escaped, join_quotes, parse_scalar, quoted_scalar, single_body, unescape_double,
}

-- The letter that is written behind a backslash for a character, where it needs one.
unfoldable pub letter_of : ℕ → Option ℕ
letter_of c =
    if eqb c 10
    then some b'n'
    else if eqb c 9
    then some b't'
    else if eqb c 13
    then some b'r'
    else if eqb c 34
    then some 34
    else if eqb c 92
    then some 92
    else none

unfoldable pub escape : Text → Text
unfolding letter_of
escape [] = []
escape (c ∷ s) =
    let rest = escape s in elim (letter_of c) [ none ↦ c ∷ rest | some e ↦ 92 ∷ e ∷ rest ]

unfoldable pub repeat_quotes : Text → Text
repeat_quotes [] = []
repeat_quotes (c ∷ s) = let rest = repeat_quotes s in if eqb c 39 then 39 ∷ 39 ∷ rest else c ∷ rest

-- The text in double and in single quotes.
unfoldable pub double_quoted : Text → Text
unfolding escape
double_quoted s = 34 ∷ (escape s ++ 34 ∷ [])

unfoldable pub single_quoted : Text → Text
unfolding repeat_quotes
single_quoted s = 39 ∷ (repeat_quotes s ++ 39 ∷ [])

abbrev with_first : ℕ → Option (Text × Text) → Option (Text × Text)
with_first c o = map_some (λ (p : Text × Text). (c ∷ p.0, p.1)) o

abbrev with_two : ℕ → ℕ → Option (Text × Text) → Option (Text × Text)
with_two c d o = map_some (λ (p : Text × Text). (c ∷ d ∷ p.0, p.1)) o

letter_of-escaped : (c e : ℕ) → letter_of c ≡ some e → escaped e ≡ some c
unfolding letter_of escaped
letter_of-escaped c e h = ground arith

letter_of-none : (c : ℕ) → letter_of c ≡ none → (eqb c 92 ≡ false) × (eqb c 34 ≡ false)
unfolding letter_of
letter_of-none c h = ground arith

double_body-plain :
    (c : ℕ) (s : Text)
    → eqb c 92 ≡ false
    → eqb c 34 ≡ false
    → double_body (c ∷ s) ≡ with_first c (double_body s)
unfolding double_body
double_body-plain c [] p q = rw (p, q, double_body) refl
double_body-plain c (d ∷ s) p q = rw (p, q, double_body) refl

double_body-escape : (s : Text) → double_body (escape s ++ 34 ∷ []) ≡ some (escape s, [])
unfolding double_body escape
double_body-escape [] = refl
double_body-escape (c ∷ s) = elim (Option-cases (letter_of c)) [
  | inl e ↦
      let (p, q) = letter_of-none c e in
      rw (e, escape)
        (double_body-plain c (escape s ++ 34 ∷ []) p q ∙ ap (with_first c) (double_body-escape s))
  | inr (d, e) ↦ rw (e, escape) (ap (with_two 92 d) (double_body-escape s))
]

unescape_double-plain :
    (c : ℕ) (s : Text)
    → eqb c 92 ≡ false
    → unescape_double (c ∷ s) ≡ (unescape_double s >>= λ t. ok (c ∷ t))
unfolding unescape_double
unescape_double-plain c [] p = rw (p, unescape_double) refl
unescape_double-plain c (d ∷ s) p = rw (p, unescape_double) refl

unescape_double-escape : (s : Text) → unescape_double (escape s) ≡ ok s
unfolding unescape_double escape
unescape_double-escape [] = refl
unescape_double-escape (c ∷ s) = elim (Option-cases (letter_of c)) [
  | inl e ↦
      rw (e, escape)
        (unescape_double-plain c (escape s) (letter_of-none c e).0
          ∙ rw (unescape_double-escape s) refl)
  | inr (d, e) ↦
      let back = letter_of-escaped c d e in
      rw (e, escape, unescape_double, back, unescape_double-escape s) refl
]

single_body-plain :
    (c : ℕ) (s : Text) → eqb c 39 ≡ false → single_body (c ∷ s) ≡ with_first c (single_body s)
unfolding single_body
single_body-plain c [] p = rw (p, single_body) refl
single_body-plain c (d ∷ s) p = rw (p, single_body) refl

single_body-repeat_quotes :
    (s : Text) → single_body (repeat_quotes s ++ 39 ∷ []) ≡ some (repeat_quotes s, [])
unfolding single_body repeat_quotes
single_body-repeat_quotes [] = refl
single_body-repeat_quotes (c ∷ s) = elim (Bool-cases (eqb c 39)) [
  | inl e ↦ rw (e, repeat_quotes) (ap (with_two 39 39) (single_body-repeat_quotes s))
  | inr e ↦
      rw (e, repeat_quotes)
        (single_body-plain c (repeat_quotes s ++ 39 ∷ []) e
          ∙ ap (with_first c) (single_body-repeat_quotes s))
]

join_quotes-plain : (c : ℕ) (s : Text) → eqb c 39 ≡ false → join_quotes (c ∷ s) ≡ c ∷ join_quotes s
unfolding join_quotes
join_quotes-plain c [] p = refl
join_quotes-plain c (d ∷ s) p = rw (p, join_quotes) refl

join_quotes-repeat_quotes : (s : Text) → join_quotes (repeat_quotes s) ≡ s
unfolding join_quotes repeat_quotes
join_quotes-repeat_quotes [] = refl
join_quotes-repeat_quotes (c ∷ s) = elim (Bool-cases (eqb c 39)) [
  | inl e ↦
      rw (e, repeat_quotes)
        (ap₂ (λ x y. x ∷ y) (sym ((eqb_iff c 39).0 e)) (join_quotes-repeat_quotes s))
  | inr e ↦
      rw (e, repeat_quotes)
        (join_quotes-plain c (repeat_quotes s) e ∙ ap (λ x. c ∷ x) (join_quotes-repeat_quotes s))
]

parse_scalar-double :
    (s : Text)
    → parse_scalar (34 ∷ (s ++ 34 ∷ []))
      ≡ quoted_scalar (double_body (s ++ 34 ∷ [])) unescape_double
unfolding parse_scalar
parse_scalar-double [] = refl
parse_scalar-double (c ∷ s) = refl

parse_scalar-single :
    (s : Text)
    → parse_scalar (39 ∷ (s ++ 39 ∷ []))
      ≡ quoted_scalar (single_body (s ++ 39 ∷ [])) (λ body. ok (join_quotes body))
unfolding parse_scalar
parse_scalar-single [] = refl
parse_scalar-single (c ∷ s) = refl

-- Every text that is written in double quotes with its escapes, or in single quotes with its quotes
-- doubled, is read back by parseScalar as that text.
pub parse_scalar-quoted :
    (s : Text)
    → (parse_scalar (double_quoted s) ≡ ok (string_value s))
      × (parse_scalar (single_quoted s) ≡ ok (string_value s))
unfolding double_quoted single_quoted trim_space
parse_scalar-quoted s = (
  parse_scalar-double (escape s) ∙ rw (double_body-escape s, unescape_double-escape s) refl,
  parse_scalar-single (repeat_quotes s)
      ∙ rw (single_body-repeat_quotes s, join_quotes-repeat_quotes s) refl,
)
