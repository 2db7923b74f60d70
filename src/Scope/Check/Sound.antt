-- ===== src/Scope/Check/Sound.antt =====
-- internal/scope/scope.go: the loop of Check over the entries.
use hermes_security_skills.Base.{
  &&-eq-true, >>=-eq-ok, Bool, Bool-cases, In, List, Option-cases, [], ap, arith, false, inl, inr,
  none, not, ok, refl, some, true, ◌&&◌, ◌||◌, ◌↔◌, ◌∙◌, ◌∷◌, ◌≡◌, ◌⊎◌,
}
use hermes_security_skills.Base.Text.{Text}
use hermes_security_skills.Base.Text.Laws.{==_iff}
use hermes_security_skills.Scope.Allowlist.{HostPort, Net}
use hermes_security_skills.Scope.Check.{
  Target, check, host_matches, match_entries, port_matches, target,
}
use hermes_security_skills.Scope.Wildcard.{Covers, match_wildcard, match_wildcard_iff}

abbrev pub HostFits : HostPort → Target → Type 0
HostFits e t =
    ((e.wild ≡ true) × (t.is_ip ≡ false) × Covers e.host t.host)
    ⊎ ((e.wild ≡ false) × (e.host ≡ t.host))

-- An entry with no port fits the usual port of the scheme alone.
abbrev pub PortFits : HostPort → Target → Type 0
PortFits e t = ((e.port ≡ none) × (t.port ≡ t.usual)) ⊎ (e.port ≡ some t.port)

host_matches_iff : (e : HostPort) (t : Target) → (host_matches e t ≡ true) ↔ HostFits e t
unfolding host_matches
host_matches_iff e t =
    let w = match_wildcard_iff e.host t.host in
    let s = ==_iff e.host t.host in
    (
      λ h. elim (Bool-cases e.wild) [
        | inl wild ↦
            let (ip, fits) =
              &&-eq-true (not t.is_ip) (match_wildcard e.host t.host) (ground arith) in
            inl (wild, ground arith, w.0 fits)
        | inr plain ↦ inr (plain, s.0 (ground arith))
      ],
      λ h. elim h [
        | inl f ↦ ground (arith, f.0, f.1, w.1 f.2)
        | inr f ↦ ground (arith, f.0, s.1 f.1)
      ],
    )

port_matches_iff : (e : HostPort) (t : Target) → (port_matches e t ≡ true) ↔ PortFits e t
unfolding port_matches
port_matches_iff e t = (
  λ h. elim (Option-cases e.port) [
    | inl none_given ↦ inl (none_given, ground arith)
    | inr (p, given) ↦ inr (given ∙ ap some (ground arith))
  ],
  λ h. elim h [ inl f ↦ ground (arith, f.0, f.1) | inr f ↦ ground (arith, f) ],
)

abbrev pub Fits : HostPort → Target → Type 0
Fits e t = HostFits e t × PortFits e t

match_entries_sound :
    (t : Target) (matched : Bool) (es : List HostPort)
    → match_entries t matched es ≡ ok tt
    → (e : HostPort) × In e es × Fits e t
unfolding match_entries
match_entries_sound t matched [] h = absurd (ground arith)
match_entries_sound t matched (e ∷ es) h =
    elim (Bool-cases (host_matches e t && port_matches e t)) [
      | inl b ↦
          let (host, port) = &&-eq-true (host_matches e t) (port_matches e t) b in
          (e, inl refl, ((host_matches_iff e t).0 host, (port_matches_iff e t).0 port))
      | inr b ↦
          let (f, listed, fits) =
            match_entries_sound t (matched || host_matches e t) es (ground arith) in
          (f, inr listed, fits)
    ]

match_entries_complete :
    (t : Target) (matched : Bool) (es : List HostPort) (e : HostPort)
    → In e es
    → Fits e t
    → match_entries t matched es ≡ ok tt
unfolding match_entries
match_entries_complete t matched [] e i f = absurd i
match_entries_complete t matched (d ∷ es) e (inl same) (h, p) =
    let host : host_matches d t ≡ true = rw same ((host_matches_iff e t).1 h) in
    let port : port_matches d t ≡ true = rw same ((port_matches_iff e t).1 p) in ground arith
match_entries_complete t matched (d ∷ es) e (inr i) f =
    ground (arith, match_entries_complete t (matched || host_matches d t) es e i f)

-- A URL is let through exactly when it has a target (its parts pass every test up to the allowlist)
-- and some entry of the allowlist fits it: by its host, where a wildcard fits no IP address, and by
-- its port.
pub check_iff :
    (net : Net) (allowed : List HostPort) (raw : Text)
    → (check net allowed raw ≡ ok tt)
      ↔ ((t : Target) × (target net raw ≡ ok t) × ((e : HostPort) × In e allowed × Fits e t))
unfolding check
check_iff net allowed raw = (
  λ h.
      let (t, made, matched) = >>=-eq-ok (target net raw) (λ t. match_entries t false allowed) h in
      (t, made, match_entries_sound t false allowed matched),
  λ (t, made, (e, i, f)). rw made (match_entries_complete t false allowed e i f),
)
