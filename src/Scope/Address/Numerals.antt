-- ===== src/Scope/Address/Numerals.antt =====
-- internal/scope/scope.go: what the numbers in a numeric host are, decimal, octal or hexadecimal.
use mathlib.Core.Option.{some-injective, some-ne-none}
use hermes_security_skills.Base.{
  Bool-cases, Option-cases, [], ap, arith, eqb, eqb_iff, false, inl, inr, length, ltb, some, sym,
  true, ℕ, ◌*◌, ◌+◌, ◌<◌, ◌||◌, ◌↔◌, ◌∷◌, ◌≡◌, ◌≢◌, ◌≤◌, ◌⊎◌,
}
use hermes_security_skills.Base.Text.{Text, codes}
use hermes_security_skills.Scope.Address.{
  host_digits, host_number_in, index_from, lower_byte, parse_host_number,
}

-- The digit `d` of a base, in either case.
abbrev pub IsDigit : ℕ → ℕ → ℕ → Type 0
IsDigit base c d =
    (d < base) × (((d < 10) × (c ≡ 48 + d)) ⊎ ((10 ≤ d) × ((c ≡ 87 + d) ⊎ (c ≡ 55 + d))))

-- The digits, read from the left behind the number `n`, make the number `m`.
abbrev pub Reads : ℕ → ℕ → Text → ℕ → Type 0
Reads base n [] m = n ≡ m
Reads base n (c ∷ cs) m = (d : ℕ) × IsDigit base c d × Reads base (n * base + d) cs m

-- One to sixteen digits of the base, for a number of 32 bits.
abbrev pub IsNumber : ℕ → Text → ℕ → Type 0
IsNumber base p m = (1 ≤ length p) × (length p ≤ 16) × Reads base 0 p m × (m ≤ 0xFFFFFFFF)

-- A part of a numeric host, as inet_aton has it but for the limit on its digits: hexadecimal behind
-- 0x, octal behind another 0, decimal otherwise.
abbrev pub IsNumeral : Text → ℕ → Type 0
IsNumeral [] m = ⊥
IsNumeral (c ∷ []) m = IsNumber 10 (c ∷ []) m
IsNumeral (c ∷ x ∷ []) m =
    ((c ≡ b'0') × IsNumber 8 (x ∷ []) m) ⊎ ((c ≢ b'0') × IsNumber 10 (c ∷ x ∷ []) m)
IsNumeral (c ∷ x ∷ y ∷ p) m =
    ((c ≡ b'0') × ((x ≡ b'x') ⊎ (x ≡ b'X')) × IsNumber 16 (y ∷ p) m)
    ⊎ ((c ≡ b'0') × (x ≢ b'x') × (x ≢ b'X') × IsNumber 8 (x ∷ y ∷ p) m)
    ⊎ ((c ≢ b'0') × IsNumber 10 (c ∷ x ∷ y ∷ p) m)

-- An alphabet of the code has the digits of its base.
abbrev HasDigits : ℕ → Text → Type 0
HasDigits base digits = (c d : ℕ) → (index_from 0 digits (lower_byte c) ≡ some d) ↔ IsDigit base c d

octal : HasDigits 8 (codes "01234567")
unfolding index_from lower_byte
octal c d = (λ h. ground arith, λ h. ground arith)

decimal_digits : HasDigits 10 (codes "0123456789")
unfolding index_from lower_byte
decimal_digits c d = (λ h. ground arith, λ h. ground arith)

hexadecimal : HasDigits 16 (codes "0123456789abcdef")
unfolding index_from lower_byte
hexadecimal c d = (λ h. ground arith, λ h. ground arith)

module _ (base : ℕ) (digits : Text) (has : HasDigits base digits)
    (grows : (n d : ℕ) → n ≤ n * base + d) where
  Reads-le : (n : ℕ) (cs : Text) (m : ℕ) → Reads base n cs m → n ≤ m
  Reads-le n [] m h = omega (arith, h)
  Reads-le n (c ∷ cs) m (d, _, rest) = omega (arith, grows n d, Reads-le (n * base + d) cs m rest)

  host_digits-Reads :
      (n : ℕ) (cs : Text) (m : ℕ)
      → n ≤ 0xFFFFFFFF
      → host_digits base digits n cs ≡ some m
      → Reads base n cs m × (m ≤ 0xFFFFFFFF)
  unfolding host_digits
  host_digits-Reads n [] m small h =
      let same = some-injective n m h in (same, omega (arith, small, same))
  host_digits-Reads n (c ∷ cs) m small h =
      elim (Option-cases (index_from 0 digits (lower_byte c))) [
        | inl e ↦ absurd (some-ne-none m (sym (rw (e, host_digits) at h)))
        | inr (d, e) ↦ elim (Bool-cases (ltb 0xFFFFFFFF (n * base + d))) [
          | inl f ↦ absurd (some-ne-none m (sym (rw (e, f, host_digits) at h)))
          | inr f ↦
              let (rest, most) =
                host_digits-Reads (n * base + d) cs m (ground arith)
                  (rw (e, f, host_digits) at h) in
              ((d, (has c d).0 e, rest), most)
        ]
      ]

  Reads-host_digits :
      (n : ℕ) (cs : Text) (m : ℕ)
      → Reads base n cs m
      → m ≤ 0xFFFFFFFF
      → host_digits base digits n cs ≡ some m
  unfolding host_digits
  Reads-host_digits n [] m same most = ap (λ x. some x) same
  Reads-host_digits n (c ∷ cs) m (d, digit, rest) most =
      let low = Reads-le (n * base + d) cs m rest in
      let f : ltb 0xFFFFFFFF (n * base + d) ≡ false = ground (arith, low, most) in
      rw ((has c d).1 digit, f, host_digits) (Reads-host_digits (n * base + d) cs m rest most)

  host_number_in_iff :
      (p : Text) (m : ℕ) → (host_number_in base digits p ≡ some m) ↔ IsNumber base p m
  host_number_in_iff p m = elim (Bool-cases (eqb (length p) 0 || ltb 16 (length p))) [
    | inl e ↦
        rw e
          (λ h. absurd (some-ne-none m (sym h)), λ (some_digits, few, _, _). absurd (ground arith))
    | inr e ↦ rw e (
      λ h.
          let (reads, most) = host_digits-Reads 0 p m (omega arith) h in
          (ground arith, ground arith, reads, most),
      λ (_, _, reads, most). Reads-host_digits 0 p m reads most,
    )
  ]

octal_iff : (p : Text) (m : ℕ) → (host_number_in 8 (codes "01234567") p ≡ some m) ↔ IsNumber 8 p m
octal_iff = host_number_in_iff 8 (codes "01234567") octal (λ n d. omega arith)

decimal_iff :
    (p : Text) (m : ℕ) → (host_number_in 10 (codes "0123456789") p ≡ some m) ↔ IsNumber 10 p m
decimal_iff = host_number_in_iff 10 (codes "0123456789") decimal_digits (λ n d. omega arith)

hexadecimal_iff :
    (p : Text) (m : ℕ) → (host_number_in 16 (codes "0123456789abcdef") p ≡ some m) ↔ IsNumber 16 p m
hexadecimal_iff = host_number_in_iff 16 (codes "0123456789abcdef") hexadecimal (λ n d. omega arith)

eqb-cases : (a b : ℕ) → ((eqb a b ≡ true) × (a ≡ b)) ⊎ ((eqb a b ≡ false) × (a ≢ b))
eqb-cases a b = elim (Bool-cases (eqb a b)) [
  | inl e ↦ inl (e, (eqb_iff a b).0 e)
  | inr e ↦ inr (e, λ same. ground (arith, same))
]

-- A part is read as a number exactly where it is a numeral, and then as the number it stands for.
pub parse_host_number_iff : (p : Text) (m : ℕ) → (parse_host_number p ≡ some m) ↔ IsNumeral p m
unfolding parse_host_number
parse_host_number_iff [] m = (λ h. absurd (some-ne-none m (sym h)), λ h. absurd h)
parse_host_number_iff (c ∷ []) m = decimal_iff (c ∷ []) m
parse_host_number_iff (c ∷ x ∷ []) m =
    let (o, o') = octal_iff (x ∷ []) m in
    let (t, t') = decimal_iff (c ∷ x ∷ []) m in
    elim (eqb-cases c b'0') [
      | inl (e, same) ↦
          rw (e, parse_host_number)
            (
              λ h. inl (same, o h),
              λ s. elim s [ inl (_, n) ↦ o' n | inr (other, _) ↦ absurd (other same) ],
            )
      | inr (e, other) ↦
          rw (e, parse_host_number)
            (
              λ h. inr (other, t h),
              λ s. elim s [ inl (same, _) ↦ absurd (other same) | inr (_, n) ↦ t' n ],
            )
    ]
parse_host_number_iff (c ∷ x ∷ y ∷ p) m =
    let (o, o') = octal_iff (x ∷ y ∷ p) m in
    let (t, t') = decimal_iff (c ∷ x ∷ y ∷ p) m in
    let (k, k') = hexadecimal_iff (y ∷ p) m in
    elim (eqb-cases c b'0') [
      | inr (e, other) ↦
          rw (e, parse_host_number)
            (
              λ h. inr (inr (other, t h)),
              λ s. elim s [
                | inl (same, _, _) ↦ absurd (other same)
                | inr (inl (same, _, _, _)) ↦ absurd (other same)
                | inr (inr (_, n)) ↦ t' n
              ],
            )
      | inl (e, same) ↦ elim (eqb-cases x b'x') [
        | inl (f, low) ↦
            rw (e, f, parse_host_number)
              (
                λ h. inl (same, inl low, k h),
                λ s. elim s [
                  | inl (_, _, n) ↦ k' n
                  | inr (inl (_, other, _, _)) ↦ absurd (other low)
                  | inr (inr (other, _)) ↦ absurd (other same)
                ],
              )
        | inr (f, not_low) ↦ elim (eqb-cases x b'X') [
          | inl (g, high) ↦
              rw (e, f, g, parse_host_number)
                (
                  λ h. inl (same, inr high, k h),
                  λ s. elim s [
                    | inl (_, _, n) ↦ k' n
                    | inr (inl (_, _, other, _)) ↦ absurd (other high)
                    | inr (inr (other, _)) ↦ absurd (other same)
                  ],
                )
          | inr (g, not_high) ↦
              rw (e, f, g, parse_host_number)
                (
                  λ h. inr (inl (same, not_low, not_high, o h)),
                  λ s. elim s [
                    | inl (_, inl low, _) ↦ absurd (not_low low)
                    | inl (_, inr high, _) ↦ absurd (not_high high)
                    | inr (inl (_, _, _, n)) ↦ o' n
                    | inr (inr (other, _)) ↦ absurd (other same)
                  ],
                )
        ]
      ]
    ]
