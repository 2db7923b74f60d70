-- ===== src/Scope/Check/Ssrf.antt =====
-- internal/scope/scope.go: Check on the spellings of a denied address.
use mathlib.Core.Bool.{false≢true}
use mathlib.Core.Option.{some-injective, some-ne-none}
use mathlib.Core.Path.{subst}
use hermes_security_skills.Base.{
  List, arith, inl, inr, none, ok, some, sym, true, ℕ, ◌%◌, ◌/◌, ◌<◌, ◌^◌, ◌∙◌, ◌≡◌, ◌≢◌,
}
use hermes_security_skills.Base.Text.{Text, split, trim_space}
use hermes_security_skills.Scope.Address.{
  Ip, bytes_of, is_denied_ip, parse_ip_literal, to4, transition_ipv4,
}
use hermes_security_skills.Scope.Address.Denied.{IsDeniedValue, ipv4_value, is_denied_ipv4_iff}
use hermes_security_skills.Scope.Address.Numeric.{Denotes, Denotes-parse_ipv4_numeric}
use hermes_security_skills.Scope.Allowlist.{HostPort, Net, Url}
use hermes_security_skills.Scope.Check.{check, host_of}
use hermes_security_skills.Scope.Check.Sound.{check_iff}
use hermes_security_skills.Scope.Check.Targets.{target-IsTarget}

-- A URL whose host is a literal of a denied address is never let through.
pub denied_literal :
    (net : Net) (allowed : List HostPort) (raw : Text) (u : Url) (ip : Ip)
    → net.parse_url (trim_space raw) ≡ some u
    → parse_ip_literal net.parse_addr (host_of u) ≡ some ip
    → is_denied_ip (some ip) ≡ true
    → check net allowed raw ≢ ok tt
denied_literal net allowed raw u ip was_parsed literal denied h =
    let (t, made, _) = (check_iff net allowed raw).0 h in
    let x = target-IsTarget net raw t made in
    let same : x.url ≡ u = some-injective x.url u (sym x.was_parsed ∙ was_parsed) in
    elim x.address [
      | inl (none_read, _, _) ↦ some-ne-none ip (
          sym literal
          ∙ subst (λ w. parse_ip_literal net.parse_addr (host_of w) ≡ none) same none_read)
      | inr (ip', read, safe, _, _) ↦
          let again =
            subst (λ w. parse_ip_literal net.parse_addr (host_of w) ≡ some ip') same read in
          let one : ip ≡ ip' = some-injective ip ip' (sym literal ∙ again) in
          false≢true (sym safe ∙ subst (λ z. is_denied_ip (some z) ≡ true) one denied)
    ]

bytes_of-IsDenied : (v : ℕ) → v < 2 ^ 32 → IsDeniedValue v → is_denied_ip (some (bytes_of v)) ≡ true
unfolding is_denied_ip transition_ipv4 to4
bytes_of-IsDenied v small d =
    let a = (v / 2 ^ 24) % 256 in
    let b = (v / 2 ^ 16) % 256 in
    let c = (v / 2 ^ 8) % 256 in
    let e = v % 256 in
    let same : v ≡ ipv4_value a b c e = omega arith in
    (is_denied_ipv4_iff a b c e (omega arith) (omega arith) (omega arith) (omega arith)).1
      (subst IsDeniedValue same d)

-- Where netip does not read the host, but its one to four parts are numerals, decimal, octal,
-- hexadecimal or mixed, of at most sixteen digits each, that denote as inet_aton has it an address in
-- a denied block, the URL is never let through, whatever the allowlist holds.
pub denied_spelling :
    (net : Net) (allowed : List HostPort) (raw : Text) (u : Url) (v : ℕ)
    → net.parse_url (trim_space raw) ≡ some u
    → net.parse_addr (host_of u) ≡ none
    → Denotes (split b'.' (host_of u)) v
    → v < 2 ^ 32
    → IsDeniedValue v
    → check net allowed raw ≢ ok tt
unfolding parse_ip_literal
denied_spelling net allowed raw u v was_parsed unread denotes small denied =
    let numeric = Denotes-parse_ipv4_numeric (host_of u) v denotes in
    let literal : parse_ip_literal net.parse_addr (host_of u) ≡ some (bytes_of v) =
      rw (unread, parse_ip_literal) numeric in
    denied_literal net allowed raw u (bytes_of v) was_parsed literal
      (bytes_of-IsDenied v small denied)
