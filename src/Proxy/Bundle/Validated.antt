-- ===== src/Proxy/Bundle/Validated.antt =====
-- internal/proxycore/bundle.go: the bundles that LoadBundle accepts.
use mathlib.Core.Bool.{false≢true}
use mathlib.Core.Path.{subst}
use hermes_security_skills.Base.{
  List, Option, Option-cases, [], ap, arith, eqb, false, inl, inr, length, none, ok, refl, some,
  sym, true, ℕ, ◌∙◌, ◌≡◌, ◌≢◌,
}
use hermes_security_skills.Base.Int.{eq_of_parts, pos, ◌≤ℤ◌}
use hermes_security_skills.Base.Text.{Text, to_lower, trim_space}
use hermes_security_skills.Base.Text.Laws.{==_iff}
use hermes_security_skills.Proxy.Bundle.{
  Bundle, Codec, bundle_version, equal_fold, load_bundle, max_body_bytes_or_default,
  max_bundle_body_bytes, max_timeout_seconds, timeout, validate_bundle,
}

pub record IsValidBundle (b : Bundle) : Type 0 where
  pub version : b.version ≡ bundle_version
  pub hosts : b.allowed_hosts ≢ []
  pub requests : pos 1 ≤ℤ b.max_requests
  pub rate : pos 1 ≤ℤ b.rate_limit_rps
  pub timeout_range : (pos 1 ≤ℤ timeout b) × (timeout b ≤ℤ max_timeout_seconds)
  pub body_range :
      (pos 1 ≤ℤ max_body_bytes_or_default b)
      × (max_body_bytes_or_default b ≤ℤ max_bundle_body_bytes)

validate_bundle-IsValidBundle : (b c : Bundle) → validate_bundle b ≡ ok c → IsValidBundle c
unfolding validate_bundle timeout max_body_bytes_or_default
validate_bundle-IsValidBundle b c h =
    let same : b ≡ c = ground arith in
    let some_hosts : eqb (length b.allowed_hosts) 0 ≡ false = ground arith in
    subst IsValidBundle same (record {
      version = eq_of_parts b.version bundle_version (ground arith);
      hosts = λ e. false≢true (sym some_hosts ∙ ap (λ (l : List Text). eqb (length l) 0) e);
      requests = ground arith;
      rate = ground arith;
      timeout_range = (ground arith, ground arith);
      body_range = (ground arith, ground arith);
    })

validate_bundle-same : (b c : Bundle) → validate_bundle b ≡ ok c → b ≡ c
unfolding validate_bundle
validate_bundle-same b c h = ground arith

-- A bundle that is loaded came from bytes with the expected hash, which decode to it, and every
-- field of it is in range, with the defaults filled in.
pub load_bundle-IsValidBundle :
    (codec : Codec) (file : Option (List ℕ)) (want_sha : Text) (b : Bundle)
    → load_bundle codec file want_sha ≡ ok b
    → IsValidBundle b
      × ((bytes : List ℕ) × (file ≡ some bytes)
          × (codec.decode bytes ≡ some b)
          × (to_lower (codec.sha256_hex bytes) ≡ to_lower (trim_space want_sha)))
unfolding load_bundle
load_bundle-IsValidBundle codec none want_sha b h = absurd (ground arith)
load_bundle-IsValidBundle codec (some bytes) want_sha b h =
    elim (Option-cases (codec.decode bytes)) [
      | inl e ↦ absurd (ground arith)
      | inr (c, e) ↦
          let valid : validate_bundle c ≡ ok b = ground arith in
          let same : c ≡ b = validate_bundle-same c b valid in
          let hash : equal_fold (codec.sha256_hex bytes) (trim_space want_sha) ≡ true =
            ground arith in
          (
            validate_bundle-IsValidBundle c b valid,
            (bytes, refl, e ∙ ap some same, (==_iff _ _).0 hash),
          )
    ]
