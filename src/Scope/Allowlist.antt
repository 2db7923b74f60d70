-- ===== src/Scope/Allowlist.antt =====
-- internal/scope/scope.go: NewChecker and parseEntry. A port after normalisation is its number
-- (`strconv.Itoa` gives one text for each). What package net does is the parameter `Net`.
pub mod Entries
use hermes_security_skills.Base.{
  Bool, List, Option, Result, [], any, deny_if, err, false, if◌then◌else◌, leb, none, not, ok, some,
  true, ℕ, ◌&&◌, ◌>>=◌, ◌>>◌, ◌||◌, ◌∷◌,
}
use hermes_security_skills.Base.Int.{ltbℤ, pos, pos_part}
use hermes_security_skills.Base.Text.{
  Text, atoi, codes, contains, contains_any, has_prefix, is_empty, split, to_lower, trim_space,
  trim_suffix,
}
use hermes_security_skills.Scope.Address.{Addr, Ip, parse_ip_literal}

pub record Url : Type 0 where
  pub scheme : Text
  pub has_user : Bool
  pub hostname : Text
  pub port : Text

-- url.Parse, net.SplitHostPort, netip.ParseAddr and net.IP.String
pub record Net : Type 0 where
  pub parse_url : Text → Option Url
  pub split_host_port : Text → Option (Text × Text)
  pub parse_addr : Text → Option Addr
  pub ip_string : Ip → Text

pub data ScopeError : Type 0 where
  invalid_url unsupported_scheme user_info private_address metadata_address : ScopeError
  host_not_allowed port_not_allowed invalid_entry : ScopeError

pub record HostPort : Type 0 where
  pub host : Text
  pub port : Option ℕ
  pub wild : Bool

unfoldable pub is_ascii : Text → Bool
is_ascii [] = true
is_ascii (c ∷ s) = not (leb 0x80 c) && is_ascii s

-- Atoi, and the test of the range.
unfoldable pub port_number : Text → Option ℕ
port_number p = elim (atoi p) [
  | none ↦ none
  | some n ↦ if ltbℤ n (pos 1) || ltbℤ (pos 65535) n then none else some (pos_part n)
]

-- The host and the port of an entry.
unfoldable pub split_entry : Net → Text → Result ScopeError (Text × Option ℕ)
split_entry net s = elim (net.split_host_port s) [
  | none ↦ ok (trim_suffix b'.' s, none)
  | some (h, p) ↦ if is_empty p then err invalid_entry else elim (port_number p) [
    | none ↦ err invalid_entry
    | some n ↦ ok (trim_suffix b'.' (to_lower h), some n)
  ]
]

-- An IP literal in its canonical form, or a host whose labels are not empty.
unfoldable pub canonical_host : Net → Text → Result ScopeError Text
canonical_host net host = elim (parse_ip_literal net.parse_addr host) [
  | some ip ↦ ok (net.ip_string ip)
  | none ↦ if any (λ l. is_empty l) (split b'.' host) then err invalid_entry else ok host
]

abbrev pub after_two : Text → Text
after_two (a ∷ b ∷ s) = s
after_two s = []

-- Whether the host is a wildcard, which is `*.` and a rest without `*`.
unfoldable pub wildcard_of : Text → Result ScopeError Bool
wildcard_of host =
    if has_prefix host (codes "*.")
    then if contains (after_two host) (codes "*") || is_empty (after_two host)
      then err invalid_entry
      else ok true
    else if contains host (codes "*")
    then err invalid_entry
    else ok false

unfoldable pub parse_entry : Net → Text → Result ScopeError HostPort
parse_entry net raw = do
  let s = to_lower (trim_space raw)
  deny_if (is_empty s) invalid_entry
  parts ← split_entry net s
  deny_if (is_empty parts.0) invalid_entry
  deny_if (contains_any parts.0 (codes " /\\@?")) invalid_entry
  deny_if (not (is_ascii parts.0)) invalid_entry
  host ← canonical_host net parts.0
  wild ← wildcard_of host
  ok (record { host = host; port = parts.1; wild = wild })

unfoldable pub new_checker : Net → List Text → Result ScopeError (List HostPort)
new_checker net [] = ok []
new_checker net (raw ∷ raws) = do e ← parse_entry net raw; es ← new_checker net raws; ok (e ∷ es)
