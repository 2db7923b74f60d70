-- ===== src/Scope/Allowlist/Entries.antt =====
-- internal/scope/scope.go: the entries that NewChecker hands to Check.
use mathlib.Core.Path.{subst}
use hermes_security_skills.Base.{
  >>=-eq-ok, All, Bool, Bool-cases, List, Option, Option-cases, Result, [], all, ap, arith, deny_if,
  false, guard-eq-ok, inl, inr, length, none, not, ok, ok-injective, refl, some, suc, true, ℕ,
  ◌>>=◌, ◌>>◌, ◌∷◌, ◌≡◌, ◌≤◌, ◌⊎◌,
}
use hermes_security_skills.Base.Text.{
  Text, atoi, codes, contains, contains_any, has_prefix, is_empty, to_lower, trim_space,
}
use hermes_security_skills.Scope.Allowlist.{
  HostPort, Net, ScopeError, after_two, canonical_host, invalid_entry, is_ascii, new_checker,
  parse_entry, port_number, split_entry, wildcard_of,
}

-- An accepted entry: its port is in range, and a `*` stands in the host of a wildcard alone, where
-- it is the first label and followed by a rest with no further `*`.
pub record IsEntry (e : HostPort) : Type 0 where
  pub port : (e.port ≡ none) ⊎ ((p : ℕ) × (e.port ≡ some p) × (1 ≤ p) × (p ≤ 65535))
  pub star :
      ((e.wild ≡ true)
        × (has_prefix e.host (codes "*.") ≡ true)
        × (contains (after_two e.host) (codes "*") ≡ false)
        × (is_empty (after_two e.host) ≡ false))
      ⊎ ((e.wild ≡ false) × (contains e.host (codes "*") ≡ false))

entry_port_range : (p : Text) (n : ℕ) → port_number p ≡ some n → (1 ≤ n) × (n ≤ 65535)
unfolding port_number
entry_port_range p n h = elim (Option-cases (atoi p)) [
  | inl e ↦ absurd (ground arith)
  | inr (z, e) ↦ (ground arith, ground arith)
]

split_entry-port :
    (net : Net) (s : Text) (r : Text × Option ℕ)
    → split_entry net s ≡ ok r
    → (r.1 ≡ none) ⊎ ((p : ℕ) × (r.1 ≡ some p) × (1 ≤ p) × (p ≤ 65535))
unfolding split_entry
split_entry-port net s r h = elim (Option-cases (net.split_host_port s)) [
  | inl e ↦ inl (ground arith)
  | inr ((host, p), e) ↦ elim (Bool-cases (is_empty p)) [
    | inl x ↦ absurd (ground arith)
    | inr x ↦ elim (Option-cases (port_number p)) [
      | inl y ↦ absurd (ground arith)
      | inr (n, y) ↦ let (low, high) = entry_port_range p n y in inr (n, ground arith, low, high)
    ]
  ]
]

wildcard_of-cases :
    (host : Text) (w : Bool)
    → wildcard_of host ≡ ok w
    → ((w ≡ true)
        × (has_prefix host (codes "*.") ≡ true)
        × (contains (after_two host) (codes "*") ≡ false)
        × (is_empty (after_two host) ≡ false))
      ⊎ ((w ≡ false) × (contains host (codes "*") ≡ false))
unfolding wildcard_of
wildcard_of-cases host w h = elim (Bool-cases (has_prefix host (codes "*."))) [
  | inl e ↦ inl (ground arith, e, ground arith, ground arith)
  | inr e ↦ inr (ground arith, ground arith)
]

abbrev as_entry : Option ℕ → Text → Bool → HostPort
as_entry p h w = record { host = h; port = p; wild = w }

abbrev finish : Net → Text × Option ℕ → Result ScopeError HostPort
finish net parts = do
  host ← canonical_host net parts.0
  wild ← wildcard_of host
  ok (as_entry parts.1 host wild)

finish-IsEntry :
    (net : Net) (parts : Text × Option ℕ) (e : HostPort)
    → (parts.1 ≡ none) ⊎ ((p : ℕ) × (parts.1 ≡ some p) × (1 ≤ p) × (p ≤ 65535))
    → finish net parts ≡ ok e
    → IsEntry e
finish-IsEntry net parts e port h =
    let (host, made, h₁) =
      >>=-eq-ok (canonical_host net parts.0) (λ x. wildcard_of x >>= λ w. ok (as_entry parts.1 x w))
        h in
    let (wild, star, h₂) = >>=-eq-ok (wildcard_of host) (λ w. ok (as_entry parts.1 host w)) h₁ in
    let same = ok-injective {a = as_entry parts.1 host wild} {b = e} h₂ in
    subst IsEntry same (record { port = port; star = wildcard_of-cases host wild star })

parse_entry-IsEntry :
    (net : Net) (raw : Text) (e : HostPort) → parse_entry net raw ≡ ok e → IsEntry e
unfolding parse_entry
parse_entry-IsEntry net raw e h =
    let s = to_lower (trim_space raw) in
    let rest = λ (parts : Text × Option ℕ).
      deny_if (is_empty parts.0) invalid_entry
      >> (deny_if (contains_any parts.0 (codes " /\\@?")) invalid_entry
          >> (deny_if (not (is_ascii parts.0)) invalid_entry >> finish net parts)) in
    let (_, h₁) = guard-eq-ok (is_empty s) invalid_entry (λ _. split_entry net s >>= rest) h in
    let (parts, made, h₂) = >>=-eq-ok (split_entry net s) rest h₁ in
    let (_, h₃) =
      guard-eq-ok (is_empty parts.0) invalid_entry
        (λ _.
          deny_if (contains_any parts.0 (codes " /\\@?")) invalid_entry
          >> (deny_if (not (is_ascii parts.0)) invalid_entry >> finish net parts))
        h₂ in
    let (_, h₄) =
      guard-eq-ok (contains_any parts.0 (codes " /\\@?")) invalid_entry
        (λ _. deny_if (not (is_ascii parts.0)) invalid_entry >> finish net parts) h₃ in
    let (_, h₅) = guard-eq-ok (not (is_ascii parts.0)) invalid_entry (λ _. finish net parts) h₄ in
    finish-IsEntry net parts e (split_entry-port net s parts made) h₅

-- Every entry of a checker has a port in range, or none, and a `*` only as the first label of a
-- wildcard; and there is one entry for each text, in order.
pub new_checker-IsEntry :
    (net : Net) (raws : List Text) (es : List HostPort)
    → new_checker net raws ≡ ok es
    → All IsEntry es × (length es ≡ length raws)
unfolding new_checker
new_checker-IsEntry net [] es h =
    subst (λ x. All IsEntry x × (length x ≡ 0)) (ok-injective h) (tt, refl)
new_checker-IsEntry net (raw ∷ raws) es h =
    let (e, first, h₁) =
      >>=-eq-ok (parse_entry net raw) (λ e. new_checker net raws >>= λ r. ok (e ∷ r)) h in
    let (r, others, h₂) = >>=-eq-ok (new_checker net raws) (λ r. ok (e ∷ r)) h₁ in
    let (all, size) = new_checker-IsEntry net raws r others in
    let same = ok-injective {a = e ∷ r} {b = es} h₂ in
    subst (λ x. All IsEntry x × (length x ≡ suc (length raws))) same
      ((parse_entry-IsEntry net raw e first, all), ap suc size)
