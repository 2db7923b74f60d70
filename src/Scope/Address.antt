-- ===== src/Scope/Address.antt =====
-- internal/scope/scope.go: IP literals in every numeric form, and the addresses that are always
-- denied. An address is its list of bytes, 4 or 16, as a Go `net.IP` is.
pub mod Numerals
pub mod Numeric
pub mod Denied
use mathlib.Core.Option
use hermes_security_skills.Base.{
  Bool, List, Option, [], eqb, false, if◌then◌else◌, leb, length, ltb, map, none, some, true, ℕ,
  ◌%◌, ◌&&◌, ◌*◌, ◌+◌, ◌-◌, ◌/◌, ◌^◌, ◌||◌, ◌∷◌,
}
use hermes_security_skills.Base.Text.{Text, codes, split, ◌==◌}

abbrev pub Ip : Type 0
Ip = List ℕ

-- net.IPv4(a, b, c, d): the 16-byte form.
abbrev pub ipv4 : ℕ → ℕ → ℕ → ℕ → Ip
ipv4 a b c d = 0 ∷ 0 ∷ 0 ∷ 0 ∷ 0 ∷ 0 ∷ 0 ∷ 0 ∷ 0 ∷ 0 ∷ 255 ∷ 255 ∷ a ∷ b ∷ c ∷ d ∷ []

unfoldable pub all_zero : List ℕ → Bool
all_zero [] = true
all_zero (x ∷ xs) = eqb x 0 && all_zero xs

-- net.IP.To4
unfoldable pub to4 : Ip → Option Ip
unfolding all_zero
to4 (a ∷ b ∷ c ∷ d ∷ []) = some (a ∷ b ∷ c ∷ d ∷ [])
to4 (z₀ ∷ z₁ ∷ z₂ ∷ z₃ ∷ z₄ ∷ z₅ ∷ z₆ ∷ z₇ ∷ z₈ ∷ z₉ ∷ e ∷ f ∷ a ∷ b ∷ c ∷ d ∷ []) =
    if all_zero (z₀ ∷ z₁ ∷ z₂ ∷ z₃ ∷ z₄ ∷ z₅ ∷ z₆ ∷ z₇ ∷ z₈ ∷ z₉ ∷ []) && eqb e 255 && eqb f 255
    then some (a ∷ b ∷ c ∷ d ∷ [])
    else none
to4 ip = none

-- A parsed `netip.Addr`; the zone of an IPv6 address plays no part.
pub data Addr : Type 0 where
  v4 : (a b c d : ℕ) → Addr
  v6 : List ℕ → Addr

-- `As4` of an IPv4-mapped address gives its last four bytes.
unfoldable pub addr_to_net_ip : Addr → Ip
unfolding to4
addr_to_net_ip (v4 a b c d) = ipv4 a b c d
addr_to_net_ip (v6 bytes) = bytes

unfoldable pub lower_byte : ℕ → ℕ
lower_byte b = if leb b'A' b && leb b b'Z' then b + (b'a' - b'A') else b

-- strings.IndexByte, counting from `i`.
unfoldable pub index_from : ℕ → Text → ℕ → Option ℕ
index_from i [] b = none
index_from i (c ∷ cs) b = if eqb c b then some i else index_from (i + 1) cs b

-- The loop of parseHostNumber over the digits; 0xFFFFFFFF is the clamp.
unfoldable pub host_digits : ℕ → Text → ℕ → Text → Option ℕ
unfolding index_from lower_byte
host_digits base digits n [] = some n
host_digits base digits n (c ∷ cs) = elim (index_from 0 digits (lower_byte c)) [
  | none ↦ none
  | some idx ↦
      let n' = n * base + idx in
      let rest = host_digits base digits n' cs in if ltb 0xFFFFFFFF n' then none else rest
]

-- The tests on the length, and the loop.
abbrev pub host_number_in : ℕ → Text → Text → Option ℕ
host_number_in base digits p =
    if eqb (length p) 0 || ltb 16 (length p) then none else host_digits base digits 0 p

unfoldable pub parse_host_number : Text → Option ℕ
unfolding host_digits
parse_host_number [] = none
parse_host_number (c ∷ []) = host_number_in 10 (codes "0123456789") (c ∷ [])
parse_host_number (c ∷ x ∷ []) =
    if eqb c b'0'
    then host_number_in 8 (codes "01234567") (x ∷ [])
    else host_number_in 10 (codes "0123456789") (c ∷ x ∷ [])
parse_host_number (c ∷ x ∷ y ∷ p) =
    if eqb c b'0' && (eqb x b'x' || eqb x b'X')
    then host_number_in 16 (codes "0123456789abcdef") (y ∷ p)
    else if eqb c b'0'
    then host_number_in 8 (codes "01234567") (x ∷ y ∷ p)
    else host_number_in 10 (codes "0123456789") (c ∷ x ∷ y ∷ p)

-- The loop of parseIPv4Numeric: `i` parts are read into `v`. The shifts stay below 2 ^ 32, and an
-- `|` of a shifted number and one below the shift is their sum.
unfoldable pub join_parts : ℕ → ℕ → List Text → Option ℕ
join_parts i v [] = none
join_parts i v (p ∷ []) = elim (parse_host_number p) [
  | none ↦ none
  | some n ↦
      let bits = 8 * (4 - i) in
      if eqb bits 0 || leb (2 ^ bits) n then none else some (v * 2 ^ bits + n)
]
join_parts i v (p ∷ q ∷ ps) = elim (parse_host_number p) [
  | none ↦ none
  | some n ↦
      let rest = join_parts (i + 1) (v * 256 + n) (q ∷ ps) in if ltb 255 n then none else rest
]

abbrev pub bytes_of : ℕ → Ip
bytes_of v = (v / 2 ^ 24) % 256 ∷ (v / 2 ^ 16) % 256 ∷ (v / 2 ^ 8) % 256 ∷ v % 256 ∷ []

unfoldable pub parse_ipv4_numeric : Text → Option Ip
unfolding join_parts parse_host_number split
parse_ipv4_numeric host =
    let parts = split b'.' host in
    if ltb 4 (length parts) then none else Option.map bytes_of (join_parts 0 0 parts)

-- netip.ParseAddr is a parameter.
unfoldable pub parse_ip_literal : (Text → Option Addr) → Text → Option Ip
unfolding parse_ipv4_numeric addr_to_net_ip
parse_ip_literal parse_addr host = elim (parse_addr host) [
  | some a ↦ some (addr_to_net_ip a)
  | none ↦ parse_ipv4_numeric host
]

unfoldable pub is_denied_ipv4 : Ip → Bool
is_denied_ipv4 (a ∷ b ∷ c ∷ d ∷ []) =
    eqb a 0
    || eqb a 10
    || eqb a 127
    || eqb a 169 && eqb b 254
    || eqb a 172 && leb 16 b && leb b 31
    || eqb a 192 && eqb b 168
    || eqb a 100 && leb 64 b && leb b 127
is_denied_ipv4 ip = false

-- The IPv4 address inside a 16-byte address of a transition prefix: NAT64, or 6to4.
unfoldable pub embedded_ipv4 : Ip → Option Ip
unfolding all_zero
embedded_ipv4
      (b₀ ∷ b₁ ∷ b₂ ∷ b₃ ∷ b₄ ∷ b₅ ∷ b₆ ∷ b₇ ∷ b₈ ∷ b₉ ∷ b₁₀ ∷ b₁₁ ∷ b₁₂ ∷ b₁₃ ∷ b₁₄ ∷ b₁₅ ∷ []) =
    if eqb b₀ 0x00
      && eqb b₁ 0x64
      && eqb b₂ 0xff
      && eqb b₃ 0x9b
      && all_zero (b₄ ∷ b₅ ∷ b₆ ∷ b₇ ∷ b₈ ∷ b₉ ∷ b₁₀ ∷ b₁₁ ∷ [])
    then some (b₁₂ ∷ b₁₃ ∷ b₁₄ ∷ b₁₅ ∷ [])
    else if eqb b₀ 0x20 && eqb b₁ 0x02
    then some (b₂ ∷ b₃ ∷ b₄ ∷ b₅ ∷ [])
    else none
embedded_ipv4 ip = none

unfoldable pub transition_ipv4 : Ip → Option Ip
transition_ipv4 ip = elim (to4 ip) [ some t ↦ some t | none ↦ embedded_ipv4 ip ]

-- net.IP's IsUnspecified, IsLoopback, IsLinkLocalUnicast and IsPrivate on an address that is no IPv4.
unfoldable pub is_denied_ipv6 : Ip → Bool
unfolding all_zero
is_denied_ipv6
      (b₀ ∷ b₁ ∷ b₂ ∷ b₃ ∷ b₄ ∷ b₅ ∷ b₆ ∷ b₇ ∷ b₈ ∷ b₉ ∷ b₁₀ ∷ b₁₁ ∷ b₁₂ ∷ b₁₃ ∷ b₁₄ ∷ b₁₅ ∷ []) =
    let head =
      all_zero
        (b₀ ∷ b₁ ∷ b₂ ∷ b₃ ∷ b₄ ∷ b₅ ∷ b₆ ∷ b₇ ∷ b₈ ∷ b₉ ∷ b₁₀ ∷ b₁₁ ∷ b₁₂ ∷ b₁₃ ∷ b₁₄ ∷ []) in
    head && eqb b₁₅ 0 || head && eqb b₁₅ 1 || eqb b₀ 0xfe && eqb (b₁ / 64) 2 || eqb (b₀ / 2) 126
is_denied_ipv6 ip = false

-- A nil address is denied by the caller's pattern.
unfoldable pub is_denied_ip : Option Ip → Bool
is_denied_ip none = true
is_denied_ip (some ip) = elim (transition_ipv4 ip) [
  | some t ↦ is_denied_ipv4 t
  | none ↦ is_denied_ipv6 ip
]

abbrev pub imds_ipv6 : Ip
imds_ipv6 = 0xfd ∷ 0x00 ∷ 0x0e ∷ 0xc2 ∷ 0 ∷ 0 ∷ 0 ∷ 0 ∷ 0 ∷ 0 ∷ 0 ∷ 0 ∷ 0 ∷ 0 ∷ 0x02 ∷ 0x54 ∷ []

abbrev pub is_metadata_ipv4 : Ip → Bool
is_metadata_ipv4 t = t == 169 ∷ 254 ∷ 169 ∷ 254 ∷ []

unfoldable pub is_cloud_metadata : Option Ip → Bool
is_cloud_metadata none = false
is_cloud_metadata (some ip) = elim (transition_ipv4 ip) [
  | some t ↦ is_metadata_ipv4 t
  | none ↦ ip == imds_ipv6
]
