-- ===== src/Scope/Check.antt =====
-- internal/scope/scope.go: Check and Validate.
pub mod Sound
pub mod Targets
pub mod Ssrf
use hermes_security_skills.Base.{
  Bool, List, Option, Result, [], deny_if, eqb, err, false, if◌then◌else◌, none, not, ok, some,
  true, ℕ, ◌&&◌, ◌>>=◌, ◌>>◌, ◌||◌, ◌∷◌,
}
use hermes_security_skills.Base.Text.{
  Text, codes, is_empty, to_lower, trim_space, trim_suffix, ◌==◌,
}
use hermes_security_skills.Scope.Address.{is_cloud_metadata, is_denied_ip, parse_ip_literal}
use hermes_security_skills.Scope.Allowlist.{
  HostPort, Net, ScopeError, Url, host_not_allowed, invalid_url, is_ascii, metadata_address,
  new_checker, port_not_allowed, port_number, private_address, unsupported_scheme, user_info,
}
use hermes_security_skills.Scope.Wildcard.{match_wildcard}

unfoldable pub default_port : Text → Option ℕ
default_port scheme =
    if scheme == codes "http" then some 80 else if scheme == codes "https" then some 443 else none

-- The host, its kind and its port that a URL asks for.
pub record Target : Type 0 where
  pub host : Text
  pub is_ip : Bool
  pub port : ℕ
  pub usual : ℕ

-- A port that is given must be a number in range; the usual one comes beside it.
unfoldable pub port_or : Text → ℕ → Result ScopeError (ℕ × ℕ)
port_or port usual =
    if is_empty port
    then ok (usual, usual)
    else elim (port_number port) [ none ↦ err port_not_allowed | some n ↦ ok (n, usual) ]

-- The port of the URL, or the scheme's.
unfoldable pub port_of : Url → Result ScopeError (ℕ × ℕ)
unfolding port_or
port_of u = elim (default_port u.scheme) [
  | none ↦ err unsupported_scheme
  | some usual ↦ port_or u.port usual
]

-- The hard denials of addresses, before any entry is looked at.
unfoldable pub deny_address : Net → Text → Result ScopeError (Text × Bool)
deny_address net host = elim (parse_ip_literal net.parse_addr host) [
  | none ↦ ok (host, false)
  | some ip ↦
      if is_cloud_metadata (some ip)
      then err metadata_address
      else if is_denied_ip (some ip)
      then err private_address
      else ok (net.ip_string ip, true)
]

abbrev pub host_of : Url → Text
host_of u = trim_suffix b'.' (to_lower u.hostname)

abbrev pub parsed : Net → Text → Result ScopeError Url
parsed net raw = elim (net.parse_url (trim_space raw)) [ none ↦ err invalid_url | some u ↦ ok u ]

-- The tests of Check on the URL alone.
unfoldable pub admit : Url → Result ScopeError (Unit {0})
admit u = do
  deny_if (not (u.scheme == codes "http") && not (u.scheme == codes "https")) unsupported_scheme
  deny_if u.has_user user_info
  deny_if (is_empty (host_of u)) invalid_url
  deny_if (not (is_ascii (host_of u))) invalid_url

-- The port, then the address.
unfoldable pub locate : Net → Url → Result ScopeError Target
locate net u = do
  ports ← port_of u
  h ← deny_address net (host_of u)
  ok (record { host = h.0; is_ip = h.1; port = ports.0; usual = ports.1 })

-- Check up to the loop over the entries.
unfoldable pub target : Net → Text → Result ScopeError Target
unfolding admit locate
target net raw = do u ← parsed net raw; admit u; locate net u

-- The host of the entry is that of the target.
unfoldable pub host_matches : HostPort → Target → Bool
host_matches e t = if e.wild then not t.is_ip && match_wildcard e.host t.host else e.host == t.host

unfoldable pub port_matches : HostPort → Target → Bool
port_matches e t = elim e.port [ none ↦ eqb t.port t.usual | some p ↦ eqb p t.port ]

-- The loop over the entries; `matched` is the variable hostMatched.
unfoldable pub match_entries : Target → Bool → List HostPort → Result ScopeError (Unit {0})
unfolding host_matches port_matches
match_entries t matched [] = if matched then err port_not_allowed else err host_not_allowed
match_entries t matched (e ∷ es) =
    let rest = match_entries t (matched || host_matches e t) es in
    if host_matches e t && port_matches e t then ok tt else rest

unfoldable pub check : Net → List HostPort → Text → Result ScopeError (Unit {0})
unfolding target
check net allowed raw = do t ← target net raw; match_entries t false allowed

unfoldable pub validate : Net → Text → List Text → Result ScopeError (Unit {0})
unfolding new_checker
validate net raw allowed_hosts = do allowed ← new_checker net allowed_hosts; check net allowed raw
