-- ===== src/Scope/Address/Numeric.antt =====
-- internal/scope/scope.go: what a numeric host stands for, inet_aton's rules written out for one to
-- four parts.
use hermes_security_skills.Base.{
  Bool-cases, List, Option-cases, [], ap, arith, eqb, inl, inr, length, some, sym, ℕ, ◌&&◌, ◌*◌,
  ◌+◌, ◌-◌, ◌<◌, ◌^◌, ◌||◌, ◌↔◌, ◌∙◌, ◌∷◌, ◌≡◌, ◌≤◌,
}
use hermes_security_skills.Base.Text.{Text, codes, split}
use hermes_security_skills.Scope.Address.{
  Ip, bytes_of, host_digits, host_number_in, index_from, join_parts, lower_byte, parse_host_number,
  parse_ipv4_numeric,
}
use hermes_security_skills.Scope.Address.Numerals.{IsNumeral, parse_host_number_iff}

host_digits-le :
    (base : ℕ) (digits : Text) (n : ℕ) (cs : Text) (m : ℕ)
    → n ≤ 0xFFFFFFFF
    → host_digits base digits n cs ≡ some m
    → m ≤ 0xFFFFFFFF
unfolding host_digits
host_digits-le base digits n [] m b h = ground arith
host_digits-le base digits n (c ∷ cs) m b h =
    elim (Option-cases (index_from 0 digits (lower_byte c))) [
      | inl e ↦ absurd (ground arith)
      | inr (idx, e) ↦ ground (arith, host_digits-le base digits (n * base + idx) cs m)
    ]

host_number_in-le :
    (base : ℕ) (digits p : Text) (m : ℕ) → host_number_in base digits p ≡ some m → m ≤ 0xFFFFFFFF
host_number_in-le base digits p m h = ground (arith, host_digits-le base digits 0 p m)

-- A part of a numeric host fits into 32 bits.
pub parse_host_number-le : (p : Text) (m : ℕ) → parse_host_number p ≡ some m → m ≤ 0xFFFFFFFF
unfolding parse_host_number
parse_host_number-le [] m h = cc
parse_host_number-le (c ∷ []) m h = host_number_in-le 10 (codes "0123456789") (c ∷ []) m h
parse_host_number-le (c ∷ x ∷ []) m h = elim (Bool-cases (eqb c b'0')) [
  | inl e ↦ host_number_in-le 8 (codes "01234567") (x ∷ []) m (rw e at h)
  | inr e ↦ host_number_in-le 10 (codes "0123456789") (c ∷ x ∷ []) m (rw e at h)
]
parse_host_number-le (c ∷ x ∷ y ∷ p) m h =
    elim (Bool-cases (eqb c b'0' && (eqb x b'x' || eqb x b'X'))) [
      | inl e ↦ host_number_in-le 16 (codes "0123456789abcdef") (y ∷ p) m (rw e at h)
      | inr e ↦ elim (Bool-cases (eqb c b'0')) [
        | inl f ↦ host_number_in-le 8 (codes "01234567") (x ∷ y ∷ p) m (rw (e, f) at h)
        | inr f ↦ host_number_in-le 10 (codes "0123456789") (c ∷ x ∷ y ∷ p) m (rw (e, f) at h)
      ]
    ]

-- The number that the parts of a host stand for, where `R` reads one part: each part but the last is
-- one byte, and the last one fills the bytes that remain.
abbrev DenotesBy : (Text → ℕ → Type 0) → List Text → ℕ → Type 0
DenotesBy R (p ∷ []) v = R p v
DenotesBy R (p ∷ q ∷ []) v =
    (a b : ℕ) × R p a × R q b × (a < 256) × (b < 2 ^ 24) × (v ≡ a * 2 ^ 24 + b)
DenotesBy R (p ∷ q ∷ r ∷ []) v =
    (a b c : ℕ) × R p a
    × R q b
    × R r c
    × (a < 256)
    × (b < 256)
    × (c < 2 ^ 16)
    × (v ≡ a * 2 ^ 24 + b * 2 ^ 16 + c)
DenotesBy R (p ∷ q ∷ r ∷ s ∷ []) v =
    (a b c d : ℕ) × R p a
    × R q b
    × R r c
    × R s d
    × (a < 256)
    × (b < 256)
    × (c < 256)
    × (d < 256)
    × (v ≡ a * 2 ^ 24 + b * 2 ^ 16 + c * 2 ^ 8 + d)
DenotesBy R parts v = ⊥

-- The parts stand for the number, each of them a numeral.
abbrev pub Denotes : List Text → ℕ → Type 0
Denotes parts v = DenotesBy IsNumeral parts v

-- The same, as the code reads the parts.
abbrev Parses : Text → ℕ → Type 0
Parses p n = parse_host_number p ≡ some n

DenotesBy-map :
    (R S : Text → ℕ → Type 0)
    → ((p : Text) (n : ℕ) → R p n → S p n)
    → (parts : List Text) (v : ℕ) → DenotesBy R parts v
    → DenotesBy S parts v
DenotesBy-map R S f [] v d = absurd d
DenotesBy-map R S f (p ∷ []) v d = f p v d
DenotesBy-map R S f (p ∷ q ∷ []) v (a, b, ea, eb, la, lb, eq) =
    (a, b, f p a ea, f q b eb, la, lb, eq)
DenotesBy-map R S f (p ∷ q ∷ r ∷ []) v (a, b, c, ea, eb, ec, la, lb, lc, eq) =
    (a, b, c, f p a ea, f q b eb, f r c ec, la, lb, lc, eq)
DenotesBy-map R S f (p ∷ q ∷ r ∷ s ∷ []) v (a, b, c, d, ea, eb, ec, ed, la, lb, lc, ld, eq) =
    (a, b, c, d, f p a ea, f q b eb, f r c ec, f s d ed, la, lb, lc, ld, eq)
DenotesBy-map R S f (p ∷ q ∷ r ∷ s ∷ t ∷ ps) v d = absurd d

join_parts-last :
    (i v : ℕ) (p : Text) (w : ℕ)
    → join_parts i v (p ∷ []) ≡ some w
    → (n : ℕ) × (parse_host_number p ≡ some n)
      × (0 < 8 * (4 - i))
      × (n < 2 ^ (8 * (4 - i)))
      × (w ≡ v * 2 ^ (8 * (4 - i)) + n)
unfolding join_parts
join_parts-last i v p w h = elim (Option-cases (parse_host_number p)) [
  | inl e ↦ absurd (ground arith)
  | inr (n, e) ↦ (n, e, ground arith, ground arith, ground arith)
]

join_parts-next :
    (i v : ℕ) (p q : Text) (ps : List Text) (w : ℕ)
    → join_parts i v (p ∷ q ∷ ps) ≡ some w
    → (n : ℕ) × (parse_host_number p ≡ some n)
      × (n < 256)
      × (join_parts (i + 1) (v * 256 + n) (q ∷ ps) ≡ some w)
unfolding join_parts
join_parts-next i v p q ps w h = elim (Option-cases (parse_host_number p)) [
  | inl e ↦ absurd (ground arith)
  | inr (n, e) ↦ (n, e, ground arith, ground arith)
]

join_parts-nil : (v : ℕ) → ¬ (join_parts 0 0 [] ≡ some v)
unfolding join_parts
join_parts-nil v = cc

join_parts-Denotes :
    (parts : List Text) (v : ℕ)
    → length parts ≤ 4
    → join_parts 0 0 parts ≡ some v
    → DenotesBy Parses parts v × (v < 2 ^ 32)
join_parts-Denotes [] v l h = absurd (join_parts-nil v h)
join_parts-Denotes (p ∷ []) v l h =
    let (n, e, _, lt, eq) = join_parts-last 0 0 p v h in (e ∙ ap some (omega arith), omega arith)
join_parts-Denotes (p ∷ q ∷ []) v l h =
    let (a, ea, la, h₁) = join_parts-next 0 0 p q [] v h in
    let (b, eb, _, lb, eq) = join_parts-last 1 (0 * 256 + a) q v h₁ in
    ((a, b, ea, eb, la, lb, omega arith), omega arith)
join_parts-Denotes (p ∷ q ∷ r ∷ []) v l h =
    let (a, ea, la, h₁) = join_parts-next 0 0 p q (r ∷ []) v h in
    let (b, eb, lb, h₂) = join_parts-next 1 (0 * 256 + a) q r [] v h₁ in
    let (c, ec, _, lc, eq) = join_parts-last 2 ((0 * 256 + a) * 256 + b) r v h₂ in
    ((a, b, c, ea, eb, ec, la, lb, lc, omega arith), omega arith)
join_parts-Denotes (p ∷ q ∷ r ∷ s ∷ []) v l h =
    let (a, ea, la, h₁) = join_parts-next 0 0 p q (r ∷ s ∷ []) v h in
    let (b, eb, lb, h₂) = join_parts-next 1 (0 * 256 + a) q r (s ∷ []) v h₁ in
    let (c, ec, lc, h₃) = join_parts-next 2 ((0 * 256 + a) * 256 + b) r s [] v h₂ in
    let (d, ed, _, ld, eq) = join_parts-last 3 (((0 * 256 + a) * 256 + b) * 256 + c) s v h₃ in
    ((a, b, c, d, ea, eb, ec, ed, la, lb, lc, ld, omega arith), omega arith)
join_parts-Denotes (p ∷ q ∷ r ∷ s ∷ t ∷ ps) v l h = absurd (omega arith)

join_parts_last :
    (i v : ℕ) (p : Text) (n : ℕ)
    → parse_host_number p ≡ some n
    → 0 < 8 * (4 - i)
    → n < 2 ^ (8 * (4 - i))
    → join_parts i v (p ∷ []) ≡ some (v * 2 ^ (8 * (4 - i)) + n)
unfolding join_parts
join_parts_last i v p n e b l = ground arith

join_parts_next :
    (i v : ℕ) (p q : Text) (ps : List Text) (n : ℕ)
    → parse_host_number p ≡ some n
    → n < 256
    → join_parts i v (p ∷ q ∷ ps) ≡ join_parts (i + 1) (v * 256 + n) (q ∷ ps)
unfolding join_parts
join_parts_next i v p q ps n e l = ground arith

Denotes-join_parts :
    (parts : List Text) (v : ℕ) → DenotesBy Parses parts v → join_parts 0 0 parts ≡ some v
Denotes-join_parts [] v d = absurd d
Denotes-join_parts (p ∷ []) v d =
    let small = parse_host_number-le p v d in
    join_parts_last 0 0 p v d (omega arith) (omega (arith, small)) ∙ ap some (omega arith)
Denotes-join_parts (p ∷ q ∷ []) v (a, b, ea, eb, la, lb, eq) =
    join_parts_next 0 0 p q [] a ea la
    ∙ join_parts_last 1 (0 * 256 + a) q b eb (omega arith) (omega arith)
    ∙ ap some (omega arith)
Denotes-join_parts (p ∷ q ∷ r ∷ []) v (a, b, c, ea, eb, ec, la, lb, lc, eq) =
    join_parts_next 0 0 p q (r ∷ []) a ea la
    ∙ join_parts_next 1 (0 * 256 + a) q r [] b eb lb
    ∙ join_parts_last 2 ((0 * 256 + a) * 256 + b) r c ec (omega arith) (omega arith)
    ∙ ap some (omega arith)
Denotes-join_parts (p ∷ q ∷ r ∷ s ∷ []) v (a, b, c, d, ea, eb, ec, ed, la, lb, lc, ld, eq) =
    join_parts_next 0 0 p q (r ∷ s ∷ []) a ea la
    ∙ join_parts_next 1 (0 * 256 + a) q r (s ∷ []) b eb lb
    ∙ join_parts_next 2 ((0 * 256 + a) * 256 + b) r s [] c ec lc
    ∙ join_parts_last 3 (((0 * 256 + a) * 256 + b) * 256 + c) s d ed (omega arith) (omega arith)
    ∙ ap some (omega arith)
Denotes-join_parts (p ∷ q ∷ r ∷ s ∷ t ∷ ps) v d = absurd d

Denotes-length : (parts : List Text) (v : ℕ) → DenotesBy Parses parts v → length parts ≤ 4
Denotes-length [] v d = absurd d
Denotes-length (p ∷ []) v d = omega arith
Denotes-length (p ∷ q ∷ []) v d = omega arith
Denotes-length (p ∷ q ∷ r ∷ []) v d = omega arith
Denotes-length (p ∷ q ∷ r ∷ s ∷ []) v d = omega arith
Denotes-length (p ∷ q ∷ r ∷ s ∷ t ∷ ps) v d = absurd d

-- A host that is read as an IPv4 address denotes, by its parts between dots, a number of 32 bits,
-- and the bytes of that number are the address.
pub parse_ipv4_numeric-Denotes :
    (host : Text) (ip : Ip)
    → parse_ipv4_numeric host ≡ some ip
    → (v : ℕ) × Denotes (split b'.' host) v × (v < 2 ^ 32) × (ip ≡ bytes_of v)
unfolding parse_ipv4_numeric
parse_ipv4_numeric-Denotes host ip h = elim (Option-cases (join_parts 0 0 (split b'.' host))) [
  | inl e ↦ absurd (ground arith)
  | inr (v, e) ↦
      let short : length (split b'.' host) ≤ 4 = ground arith in
      let (denotes, small) = join_parts-Denotes (split b'.' host) v short e in
      (
        v,
        DenotesBy-map Parses IsNumeral (λ p n. (parse_host_number_iff p n).0) (split b'.' host) v
            denotes,
        small,
        ground arith,
      )
]

-- A host whose parts denote a number, in any of the spellings, is read as the bytes of that number.
pub Denotes-parse_ipv4_numeric :
    (host : Text) (v : ℕ)
    → Denotes (split b'.' host) v
    → parse_ipv4_numeric host ≡ some (bytes_of v)
unfolding parse_ipv4_numeric
Denotes-parse_ipv4_numeric host v d =
    let parsed =
      DenotesBy-map IsNumeral Parses (λ p n. (parse_host_number_iff p n).1) (split b'.' host) v d in
    ground (
      arith,
      Denotes-length (split b'.' host) v parsed,
      Denotes-join_parts (split b'.' host) v parsed,
    )

-- A host is read as an IPv4 address exactly where its one to four parts between dots are numerals,
-- each hexadecimal behind 0x, octal behind another 0, or decimal, of at most sixteen digits, that
-- denote as inet_aton has it a number of 32 bits; and the address is the bytes of that number.
pub parse_ipv4_numeric_iff :
    (host : Text) (ip : Ip)
    → (parse_ipv4_numeric host ≡ some ip)
      ↔ ((v : ℕ) × Denotes (split b'.' host) v × (v < 2 ^ 32) × (ip ≡ bytes_of v))
parse_ipv4_numeric_iff host ip = (
  parse_ipv4_numeric-Denotes host ip,
  λ (v, denotes, small, same).
      Denotes-parse_ipv4_numeric host v denotes ∙ ap (λ x. some x) (sym same),
)
