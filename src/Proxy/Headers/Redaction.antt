-- ===== src/Proxy/Headers/Redaction.antt =====
-- internal/proxycore/redact.go: RedactHeaders.
use hermes_security_skills.Base.{All, Bool-cases, [], false, inl, inr, refl, ◌∷◌, ◌≡◌, ◌⊎◌}
use hermes_security_skills.Proxy.Headers.{
  Header, is_sensitive_header, redact_headers, redacted_value,
}

-- A header whose sensitive names have no value but the mark.
abbrev pub IsRedacted : Header → Type 0
IsRedacted h = All (λ e. (is_sensitive_header e.0 ≡ false) ⊎ (e.1 ≡ redacted_value ∷ [])) h

-- After RedactHeaders every sensitive name has the mark for its one value.
pub redact_headers-IsRedacted : (h : Header) → IsRedacted (redact_headers h)
unfolding redact_headers
redact_headers-IsRedacted [] = tt
redact_headers-IsRedacted (e ∷ h) = (
  elim (Bool-cases (is_sensitive_header e.0)) [ inl s ↦ rw s (inr refl) | inr s ↦ rw s (inl s) ],
  redact_headers-IsRedacted h,
)
