-- ===== src/Scope/Check/Targets.antt =====
-- internal/scope/scope.go: what Check has established of a URL before it looks at the entries.
use mathlib.Core.Path.{subst}
use hermes_security_skills.Base.{
  >>=-eq-ok, Bool, Bool-cases, Option-cases, ap, arith, false, inl, inr, none, ok, ok-injective,
  some, true, ℕ, ◌>>=◌, ◌>>◌, ◌∙◌, ◌≡◌, ◌≤◌, ◌⊎◌,
}
use hermes_security_skills.Base.Text.{Text, atoi, codes, is_empty, trim_space}
use hermes_security_skills.Base.Text.Laws.{==_cases}
use hermes_security_skills.Scope.Address.{Ip, is_denied_ip, parse_ip_literal}
use hermes_security_skills.Scope.Allowlist.{Net, Url, is_ascii, port_number}
use hermes_security_skills.Scope.Check.{
  Target, admit, default_port, deny_address, host_of, locate, parsed, port_of, port_or, target,
}

-- What a target has passed.
pub record IsTarget (net : Net) (raw : Text) (t : Target) : Type 0 where
  pub url : Url
  pub was_parsed : net.parse_url (trim_space raw) ≡ some url
  pub scheme :
      ((url.scheme ≡ codes "http") × (t.usual ≡ 80))
      ⊎ ((url.scheme ≡ codes "https") × (t.usual ≡ 443))
  pub no_user : url.has_user ≡ false
  pub not_empty : is_empty (host_of url) ≡ false
  pub ascii : is_ascii (host_of url) ≡ true
  pub port_range : (1 ≤ t.port) × (t.port ≤ 65535)
  pub address :
      ((parse_ip_literal net.parse_addr (host_of url) ≡ none)
        × (t.host ≡ host_of url)
        × (t.is_ip ≡ false))
      ⊎ ((ip : Ip) × (parse_ip_literal net.parse_addr (host_of url) ≡ some ip)
          × (is_denied_ip (some ip) ≡ false)
          × (t.host ≡ net.ip_string ip)
          × (t.is_ip ≡ true))

deny_address-cases :
    (net : Net) (host : Text) (r : Text × Bool)
    → deny_address net host ≡ ok r
    → ((parse_ip_literal net.parse_addr host ≡ none) × (r.0 ≡ host) × (r.1 ≡ false))
      ⊎ ((ip : Ip) × (parse_ip_literal net.parse_addr host ≡ some ip)
          × (is_denied_ip (some ip) ≡ false)
          × (r.0 ≡ net.ip_string ip)
          × (r.1 ≡ true))
unfolding deny_address
deny_address-cases net host r h = elim (Option-cases (parse_ip_literal net.parse_addr host)) [
  | inl e ↦ inl (e, ground arith, ground arith)
  | inr (ip, e) ↦ inr (ip, e, ground arith, ground arith, ground arith)
]

port_number-range : (p : Text) (n : ℕ) → port_number p ≡ some n → (1 ≤ n) × (n ≤ 65535)
unfolding port_number
port_number-range p n h = elim (Option-cases (atoi p)) [
  | inl e ↦ absurd (ground arith)
  | inr (z, e) ↦ (ground arith, ground arith)
]

port_or-range :
    (p : Text) (usual : ℕ) (ports : ℕ × ℕ)
    → 1 ≤ usual
    → usual ≤ 65535
    → port_or p usual ≡ ok ports
    → (ports.1 ≡ usual) × (1 ≤ ports.0) × (ports.0 ≤ 65535)
unfolding port_or
port_or-range p usual ports l u h = elim (Bool-cases (is_empty p)) [
  | inl e ↦ (ground arith, ground arith, ground arith)
  | inr e ↦ elim (Option-cases (port_number p)) [
    | inl x ↦ absurd (ground arith)
    | inr (n, x) ↦
        let (low, high) = port_number-range p n x in (ground arith, ground arith, ground arith)
  ]
]

default_port-cases :
    (s : Text) (n : ℕ)
    → default_port s ≡ some n
    → ((s ≡ codes "http") × (n ≡ 80)) ⊎ ((s ≡ codes "https") × (n ≡ 443))
unfolding default_port
default_port-cases s n h = elim (==_cases s (codes "http")) [
  | inl (e, p) ↦ inl (p, ground arith)
  | inr (e, p) ↦ elim (==_cases s (codes "https")) [
    | inl (f, q) ↦ inr (q, ground arith)
    | inr (f, q) ↦ absurd (ground arith)
  ]
]

port_of-cases :
    (u : Url) (ports : ℕ × ℕ)
    → port_of u ≡ ok ports
    → (((u.scheme ≡ codes "http") × (ports.1 ≡ 80))
        ⊎ ((u.scheme ≡ codes "https") × (ports.1 ≡ 443)))
      × ((1 ≤ ports.0) × (ports.0 ≤ 65535))
unfolding port_of
port_of-cases u ports h = elim (Option-cases (default_port u.scheme)) [
  | inl e ↦ absurd (ground arith)
  | inr (usual, e) ↦ elim (default_port-cases u.scheme usual e) [
    | inl (s, is) ↦
        let (same, low, high) =
          port_or-range u.port usual ports (omega arith) (omega arith) (rw (e, port_of) at h) in
        (inl (s, same ∙ is), (low, high))
    | inr (s, is) ↦
        let (same, low, high) =
          port_or-range u.port usual ports (omega arith) (omega arith) (rw (e, port_of) at h) in
        (inr (s, same ∙ is), (low, high))
  ]
]

parsed-cases :
    (net : Net) (raw : Text) (u : Url)
    → parsed net raw ≡ ok u
    → net.parse_url (trim_space raw) ≡ some u
parsed-cases net raw u h = elim (Option-cases (net.parse_url (trim_space raw))) [
  | inl e ↦ absurd (ground arith)
  | inr (v, e) ↦ e ∙ ap some (ground arith)
]

admit-eq-ok :
    (u : Url)
    → admit u ≡ ok tt
    → (u.has_user ≡ false) × (is_empty (host_of u) ≡ false) × (is_ascii (host_of u) ≡ true)
unfolding admit
admit-eq-ok u h = (ground arith, ground arith, ground arith)

abbrev as_target : ℕ × ℕ → Text × Bool → Target
as_target ports h = record { host = h.0; is_ip = h.1; port = ports.0; usual = ports.1 }

locate-eq-ok :
    (net : Net) (u : Url) (t : Target)
    → locate net u ≡ ok t
    → (ports : ℕ × ℕ) × (h : Text × Bool) × (port_of u ≡ ok ports)
      × (deny_address net (host_of u) ≡ ok h)
      × (as_target ports h ≡ t)
unfolding locate
locate-eq-ok net u t h =
    let (ports, given, h₁) =
      >>=-eq-ok (port_of u) (λ p. deny_address net (host_of u) >>= λ d. ok (as_target p d)) h in
    let (d, passed, h₂) =
      >>=-eq-ok (deny_address net (host_of u)) (λ d. ok (as_target ports d)) h₁ in
    (ports, d, given, passed, ok-injective {a = as_target ports d} {b = t} h₂)

target-eq-ok :
    (net : Net) (raw : Text) (t : Target)
    → target net raw ≡ ok t
    → (u : Url) × (parsed net raw ≡ ok u) × (admit u ≡ ok tt) × (locate net u ≡ ok t)
unfolding target
target-eq-ok net raw t h =
    let (u, was_parsed, h₁) = >>=-eq-ok (parsed net raw) (λ u. admit u >> locate net u) h in
    let (x, admitted, h₂) = >>=-eq-ok (admit u) (λ _. locate net u) h₁ in
    (u, was_parsed, admitted, h₂)

-- A target comes from an http or https URL with no user information, whose host is a text of ASCII
-- that is not empty and whose port lies between 1 and 65535; its host is that of the URL, or the
-- canonical form of an IP address that is not denied.
pub target-IsTarget :
    (net : Net) (raw : Text) (t : Target) → target net raw ≡ ok t → IsTarget net raw t
target-IsTarget net raw t h =
    let (u, was_parsed, admitted, located) = target-eq-ok net raw t h in
    let (no_user, not_empty, ascii) = admit-eq-ok u admitted in
    let (ports, d, given, passed, same) = locate-eq-ok net u t located in
    let (scheme, range) = port_of-cases u ports given in
    subst (IsTarget net raw) same (record {
      url = u;
      was_parsed = parsed-cases net raw u was_parsed;
      scheme = scheme;
      no_user = no_user;
      not_empty = not_empty;
      ascii = ascii;
      port_range = range;
      address = deny_address-cases net (host_of u) d passed;
    })
