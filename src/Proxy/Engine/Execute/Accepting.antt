-- ===== src/Proxy/Engine/Execute/Accepting.antt =====
-- internal/proxycore/engine.go: what Execute has checked before the first request.
use mathlib.Core.Path.{subst}
use hermes_security_skills.Base.{
  >>=-eq-ok, All, Bool-cases, List, Option-cases, [], either_true, false, guard-eq-ok, inl, inr,
  not, not-eq-false, ok, ok-injective, some, true, ||-eq-false, ◌&&◌, ◌||◌, ◌∷◌, ◌≡◌, ◌⊎◌,
}
use hermes_security_skills.Base.Text.{Text, is_empty}
use hermes_security_skills.Proxy.Engine.{
  Hop, Request, World, bad_case, bad_header_name, bad_header_value, is_allowed_method,
  method_not_allowed, no_method, no_url, valid_case_id,
}
use hermes_security_skills.Proxy.Engine.Execute.{
  accept, check_headers, method_of, parse_target, url_of,
}
use hermes_security_skills.Proxy.Headers.{valid_header_field_name, valid_header_field_value}
use hermes_security_skills.Scope.Check.{target}

abbrev IsValidHeader : Text × Text → Type 0
IsValidHeader h = (valid_header_field_name h.0 ≡ true) × (valid_header_field_value h.1 ≡ true)

check_headers-ok :
    (headers : List (Text × Text)) → check_headers headers ≡ ok tt → All IsValidHeader headers
unfolding check_headers
check_headers-ok [] passed = tt
check_headers-ok ((name, value) ∷ rest) passed =
    let (name_ok, passed1) =
      guard-eq-ok (not (valid_header_field_name name)) bad_header_name _ passed in
    let (value_ok, passed2) =
      guard-eq-ok (not (valid_header_field_value value)) bad_header_value _ passed1 in
    ((not-eq-false _ name_ok, not-eq-false _ value_ok), check_headers-ok rest passed2)

module _ (w : World) where
  abbrev Parsed : Text → w.Url → Type 0
  Parsed raw u =
      (w.parse_url raw ≡ some u) × (is_empty (w.scheme u) ≡ false) × (is_empty (w.host u) ≡ false)

  parse_target-ok : (raw : Text) (u : w.Url) → parse_target w raw ≡ ok u → Parsed raw u
  unfolding parse_target
  parse_target-ok raw u passed = elim (Option-cases (w.parse_url raw)) [
    | inl f ↦ (let impossible = rw (f, parse_target) at passed in cc)
    | inr (v, f) ↦ elim (Bool-cases (is_empty (w.scheme v) || is_empty (w.host v))) [
      | inl g ↦ (let impossible = rw (f, g, parse_target) at passed in cc)
      | inr g ↦
          let same = ok-injective (rw (f, g, parse_target) at passed) in
          let (scheme, host) = ||-eq-false (is_empty (w.scheme v)) (is_empty (w.host v)) g in
          subst (λ x. Parsed raw x) same (f, scheme, host)
    ]
  ]

  -- What a hop and the request that it was made from have in common with each other.
  abbrev pub Checked : Request → Hop w → Type 0
  Checked req first =
      (is_allowed_method first.method ≡ true)
      × Parsed (url_of req) first.url
      × ((is_empty req.case_id ≡ true) ⊎ (valid_case_id req.case_id ≡ true))
      × All IsValidHeader req.headers

  -- A request whose first hop is accepted has an allowed method, a URL that parses to the hop's URL
  -- with a scheme and a host, a valid case or none, and only valid names and values of headers.
  pub accept-ok : (req : Request) (first : Hop w) → accept w req ≡ ok first → Checked req first
  unfolding accept
  accept-ok req first passed =
      let (_, p1) = guard-eq-ok (is_empty (method_of req)) no_method _ passed in
      let (allowed, p2) =
        guard-eq-ok (not (is_allowed_method (method_of req))) method_not_allowed _ p1 in
      let (_, p3) = guard-eq-ok (is_empty (url_of req)) no_url _ p2 in
      let (u, target, p4) = >>=-eq-ok (parse_target w (url_of req)) _ p3 in
      let (case_ok, p5) =
        guard-eq-ok (not (is_empty req.case_id) && not (valid_case_id req.case_id)) bad_case _ p4 in
      let (_, headers, p6) = >>=-eq-ok (check_headers req.headers) _ p5 in
      subst (Checked req) (ok-injective p6) (
        not-eq-false _ allowed,
        parse_target-ok (url_of req) u target,
        either_true _ _ case_ok,
        check_headers-ok req.headers headers,
      )
