-- ===== src/Proxy/Headers.antt =====
-- internal/proxycore/redact.go, and the header functions of engine.go. A header is a list of names
-- with their values, in the order in which Go happens to visit the map.
pub mod Redaction
use hermes_security_skills.Base.{
  Bool, List, [], all, any, eqb, false, if◌then◌else◌, keep, leb, ltb, map, not, true, ℕ, ◌&&◌, ◌-◌,
  ◌||◌, ◌∷◌,
}
use hermes_security_skills.Base.Text.{Text, codes, contains, contains_rune, to_lower, ◌==◌}
use hermes_security_skills.Scope.Address.{lower_byte}

abbrev pub Header : Type 0
Header = List (Text × List Text)

abbrev pub redacted_value : Text
redacted_value = codes "[REDACTED]"

-- The characters of an RFC 7230 token.
unfoldable pub is_token : ℕ → Bool
unfolding contains_rune
is_token c =
    leb b'a' c && leb c b'z'
    || leb b'A' c && leb c b'Z'
    || leb b'0' c && leb c b'9'
    || contains_rune (codes "!#$%&'*+-.^_`|~") c

unfoldable pub valid_header_field_name : Text → Bool
unfolding is_token all
valid_header_field_name [] = false
valid_header_field_name (c ∷ s) = all is_token (c ∷ s)

unfoldable pub valid_value_rune : ℕ → Bool
valid_value_rune c = eqb c b'\t' || not (ltb c 0x20 || eqb c 0x7f)

unfoldable pub valid_header_field_value : Text → Bool
unfolding valid_value_rune all
valid_header_field_value v = all valid_value_rune v

abbrev pub sensitive_words : List Text
sensitive_words =
    codes "token"
    ∷ codes "key"
    ∷ codes "secret"
    ∷ codes "auth"
    ∷ codes "password"
    ∷ codes "passwd"
    ∷ codes "credential"
    ∷ codes "session"
    ∷ codes "jwt"
    ∷ codes "bearer"
    ∷ []

abbrev pub sensitive_names : List Text
sensitive_names =
    codes "authorization"
    ∷ codes "cookie"
    ∷ codes "set-cookie"
    ∷ codes "proxy-authorization"
    ∷ codes "www-authenticate"
    ∷ []

unfoldable pub is_sensitive_header : Text → Bool
unfolding valid_header_field_name any
is_sensitive_header name =
    if not (valid_header_field_name name)
    then true
    else let n = to_lower name in
      any (λ w. contains n w) sensitive_words || any (λ w. n == w) sensitive_names

abbrev pub redact_entry : Text × List Text → Text × List Text
redact_entry e = if is_sensitive_header e.0 then (e.0, redacted_value ∷ []) else e

unfoldable pub redact_headers : Header → Header
redact_headers h = map redact_entry h

unfoldable pub is_hop_by_hop : Text → Bool
unfolding any
is_hop_by_hop k =
    any (λ w. k == w)
      (codes "host"
        ∷ codes "connection"
        ∷ codes "proxy-connection"
        ∷ codes "keep-alive"
        ∷ codes "transfer-encoding"
        ∷ codes "te"
        ∷ codes "trailer"
        ∷ codes "upgrade"
        ∷ codes "content-length"
        ∷ [])

-- textproto.CanonicalMIMEHeaderKey: an upper-case letter at the start and behind each dash.
unfoldable pub canonical_from : Bool → Text → Text
unfolding lower_byte
canonical_from up [] = []
canonical_from up (c ∷ s) =
    (if up then (if leb b'a' c && leb c b'z' then c - 32 else c) else lower_byte c)
    ∷ canonical_from (eqb c b'-') s

unfoldable pub canonical_key : Text → Text
unfolding canonical_from valid_header_field_name
canonical_key k = if valid_header_field_name k then canonical_from true k else k

-- http.Header.Set
unfoldable pub set_header : Text → Text → Header → Header
unfolding canonical_key keep
set_header k v h = let key = canonical_key k in (key, v ∷ []) ∷ keep (λ e. not (e.0 == key)) h

-- The loop of sanitizeHeaders.
unfoldable pub sanitize_from : Header → List (Text × Text) → Header
unfolding is_hop_by_hop set_header
sanitize_from h [] = h
sanitize_from h ((k, v) ∷ rest) =
    sanitize_from (if is_hop_by_hop (to_lower k) then h else set_header k v h) rest

unfoldable pub sanitize_headers : List (Text × Text) → Header
unfolding sanitize_from
sanitize_headers given = sanitize_from [] given
