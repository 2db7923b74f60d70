-- ===== src/Proxy/Bundle.antt =====
-- internal/proxycore/bundle.go: the policy bundle, which is used only if its hash is the expected one
-- and its contents are in range. SHA-256 and the JSON decoder are parameters; durations are seconds.
pub mod Validated
use hermes_security_skills.Base.{
  Bool, List, Option, Result, deny_if, eqb, err, if◌then◌else◌, length, none, not, ok, some, ℕ,
  ◌&&◌, ◌*◌, ◌>>=◌, ◌>>◌, ◌^◌, ◌||◌,
}
use hermes_security_skills.Base.Int.{lebℤ, ltbℤ, pos, ℤ}
use hermes_security_skills.Base.Text.{Text, is_blank, to_lower, trim_space, ◌==◌}

pub record Bundle : Type 0 where
  pub version : ℤ
  pub allowed_hosts : List Text
  pub max_requests : ℤ
  pub rate_limit_rps : ℤ
  pub follow_redirects : Bool
  pub timeout_seconds : ℤ
  pub max_body_bytes : ℤ

abbrev pub bundle_version : ℤ
bundle_version = pos 1

abbrev pub default_timeout_second : ℤ
default_timeout_second = pos 15

abbrev pub default_max_body_bytes : ℤ
default_max_body_bytes = pos 8192

abbrev pub max_timeout_seconds : ℤ
max_timeout_seconds = pos 300

abbrev pub max_bundle_body_bytes : ℤ
max_bundle_body_bytes = pos (10 * 2 ^ 20)

pub data BundleError : Type 0 where
  no_hash unreadable_bundle hash_mismatch unparsable_bundle bad_version no_hosts bad_limits :
      BundleError
  bad_timeout bad_body_bytes : BundleError

pub record Codec : Type 0 where
  pub sha256_hex : List ℕ → Text
  pub decode : List ℕ → Option Bundle

abbrev pub is_eq : ℤ → ℤ → Bool
is_eq a b = lebℤ a b && lebℤ b a

-- The tests on the decoded bundle.
unfoldable pub validate_bundle : Bundle → Result BundleError Bundle
validate_bundle b = do
  deny_if (not (is_eq b.version bundle_version)) bad_version
  deny_if (eqb (length b.allowed_hosts) 0) no_hosts
  deny_if (lebℤ b.max_requests (pos 0) || lebℤ b.rate_limit_rps (pos 0)) bad_limits
  deny_if (ltbℤ b.timeout_seconds (pos 0) || ltbℤ max_timeout_seconds b.timeout_seconds) bad_timeout
  deny_if (ltbℤ b.max_body_bytes (pos 0) || ltbℤ max_bundle_body_bytes b.max_body_bytes)
      bad_body_bytes
  ok b

-- strings.EqualFold against a hash in hexadecimal
abbrev pub equal_fold : Text → Text → Bool
equal_fold s t = to_lower s == to_lower t

-- The file is what ReadFile gave.
unfoldable pub load_bundle : Codec → Option (List ℕ) → Text → Result BundleError Bundle
unfolding validate_bundle
load_bundle codec file want_sha = if is_blank want_sha then err no_hash else elim file [
  | none ↦ err unreadable_bundle
  | some bytes ↦
      if not (equal_fold (codec.sha256_hex bytes) (trim_space want_sha))
      then err hash_mismatch
      else elim (codec.decode bytes) [ none ↦ err unparsable_bundle | some b ↦ validate_bundle b ]
]

unfoldable pub timeout : Bundle → ℤ
timeout b = if lebℤ b.timeout_seconds (pos 0) then default_timeout_second else b.timeout_seconds

unfoldable pub max_body_bytes_or_default : Bundle → ℤ
max_body_bytes_or_default b =
    if lebℤ b.max_body_bytes (pos 0) then default_max_body_bytes else b.max_body_bytes
