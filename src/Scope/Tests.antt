-- ===== src/Scope/Tests.antt =====
-- The scope theorems at concrete URLs. The parser of URLs is a table of two, and netip reads nothing.
use hermes_security_skills.Base.{
  In, [], any, arith, err, false, if◌then◌else◌, inl, inr, none, ok, refl, some, true, ℕ, ◌<◌, ◌^◌,
  ◌↔◌, ◌∷◌, ◌≡◌, ◌≢◌,
}
use hermes_security_skills.Base.Text.{
  atoi, codes, contains, contains_any, has_prefix, split, to_lower, trim_space, trim_suffix, ◌==◌,
}
use hermes_security_skills.Scope.Address.{
  all_zero, bytes_of, embedded_ipv4, is_cloud_metadata, is_denied_ip, is_denied_ipv4,
  parse_ip_literal, parse_ipv4_numeric, to4, transition_ipv4,
}
use hermes_security_skills.Scope.Address.Denied.{nat64}
use hermes_security_skills.Scope.Address.Numerals.{parse_host_number_iff}
use hermes_security_skills.Scope.Address.Numeric.{Denotes, parse_ipv4_numeric_iff}
use hermes_security_skills.Scope.Allowlist.{
  HostPort, Net, Url, canonical_host, is_ascii, new_checker, parse_entry, port_number,
  private_address, split_entry, wildcard_of,
}
use hermes_security_skills.Scope.Check.{
  Target, admit, check, default_port, deny_address, host_of, locate, match_entries, port_of, target,
}
use hermes_security_skills.Scope.Check.Sound.{Fits, check_iff}
use hermes_security_skills.Scope.Check.Ssrf.{denied_spelling}
use hermes_security_skills.Scope.Wildcard.{Covers, match_wildcard, match_wildcard_iff}

matching : Unit {0}
unfolding check target match_entries match_wildcard parse_ip_literal parse_ipv4_numeric
    is_cloud_metadata is_denied_ip transition_ipv4 to4 is_denied_ipv4 deny_address port_of
    port_number atoi default_port is_ascii to_lower trim_space trim_suffix new_checker parse_entry
    split_entry canonical_host wildcard_of has_prefix contains contains_any any ◌==◌ all_zero locate
    admit
matching = tt

abbrev plain_url : Url
plain_url = record {
  scheme = codes "https";
  has_user = false;
  hostname = codes "A.example.com.";
  port = [];
}

abbrev numeric_url : Url
numeric_url = record {
  scheme = codes "http";
  has_user = false;
  hostname = codes "0x7f.1";
  port = codes "080";
}

abbrev net : Net
net = record {
  parse_url = λ s. if s == codes "u" then some plain_url else some numeric_url;
  split_host_port = λ s. none;
  parse_addr = λ s. none;
  ip_string = λ ip. ip;
}

abbrev wild : HostPort
wild = record { host = codes "*.example.com"; port = none; wild = true }

checked_entries : new_checker net (codes "*.Example.com" ∷ []) ≡ ok (wild ∷ [])
unfolding matching
checked_entries = refl

checked : check net (wild ∷ []) (codes "u") ≡ ok tt
unfolding matching
checked = refl

refused : check net (wild ∷ []) (codes "v") ≡ err private_address
unfolding matching
refused = refl

-- Four spellings of 127.0.0.1.
spellings :
    (parse_ipv4_numeric (codes "2130706433") ≡ some (127 ∷ 0 ∷ 0 ∷ 1 ∷ []))
    × (parse_ipv4_numeric (codes "017700000001") ≡ some (127 ∷ 0 ∷ 0 ∷ 1 ∷ []))
    × (parse_ipv4_numeric (codes "0X7F.1") ≡ some (127 ∷ 0 ∷ 0 ∷ 1 ∷ []))
    × (parse_ipv4_numeric (codes "127.0.1") ≡ some (127 ∷ 0 ∷ 0 ∷ 1 ∷ []))
    × (parse_ipv4_numeric (codes "127.0.0.256") ≡ none)
unfolding matching
spellings = (refl, refl, refl, refl, refl)

check_iff_example : (check net (wild ∷ []) (codes "u") ≡ ok tt) ↔ (
    (t : Target) × (target net (codes "u") ≡ ok t) × ((e : HostPort) × In e (wild ∷ []) × Fits e t))
check_iff_example = check_iff net (wild ∷ []) (codes "u")

abbrev plain_target : Target
plain_target = record { host = codes "a.example.com"; is_ip = false; port = 443; usual = 443 }

plain_target_made : target net (codes "u") ≡ ok plain_target
unfolding matching
plain_target_made = refl

loopback-Denotes : Denotes (split b'.' (host_of numeric_url)) 2130706433
unfolding matching
loopback-Denotes = (
  127,
  1,
  (parse_host_number_iff (codes "0x7f") 127).0 refl,
  (parse_host_number_iff (codes "1") 1).0 refl,
  omega arith,
  omega arith,
  refl,
)

url_parsed : net.parse_url (trim_space (codes "v")) ≡ some numeric_url
unfolding matching
url_parsed = refl

denied_spelling_example : check net (wild ∷ []) (codes "v") ≢ ok tt
denied_spelling_example =
    denied_spelling net (wild ∷ []) (codes "v") numeric_url 2130706433 url_parsed refl
      loopback-Denotes (omega arith) (inr (inr (inl refl)))

metadata_is : is_cloud_metadata (some (nat64 169 254 169 254)) ≡ true
unfolding matching embedded_ipv4
metadata_is = refl

short_loopback : parse_ipv4_numeric (codes "127.1") ≡ some (127 ∷ 0 ∷ 0 ∷ 1 ∷ [])
unfolding matching
short_loopback = refl

match_wildcard_iff_example :
    (match_wildcard (codes "*.example.com") (codes "a.example.com") ≡ true)
    ↔ Covers (codes "*.example.com") (codes "a.example.com")
match_wildcard_iff_example = match_wildcard_iff (codes "*.example.com") (codes "a.example.com")

parse_ipv4_numeric_iff_example :
    (parse_ipv4_numeric (codes "127.1") ≡ some (127 ∷ 0 ∷ 0 ∷ 1 ∷ [])) ↔ (
      (v : ℕ) × Denotes (split b'.' (codes "127.1")) v
      × (v < 2 ^ 32)
      × (127 ∷ 0 ∷ 0 ∷ 1 ∷ [] ≡ bytes_of v))
parse_ipv4_numeric_iff_example = parse_ipv4_numeric_iff (codes "127.1") (127 ∷ 0 ∷ 0 ∷ 1 ∷ [])
