-- ===== src/Policy/Limits.antt =====
-- internal/policy/policy.go: what LoadLimits accepts.
use mathlib.Core.Path.{subst}
use hermes_security_skills.Base.{
  >>=-eq-ok, Bool, Bool-cases, Option, ap, arith, false, inl, inr, none, ok, ok-injective, refl,
  some, sym, true, ◌↔◌, ◌∙◌, ◌≡◌,
}
use hermes_security_skills.Base.Int.{lebℤ, pos, ℤ, ◌≤ℤ◌}
use hermes_security_skills.Base.Text.{Text, codes, ◌==◌}
use hermes_security_skills.Base.Text.Laws.{==_iff, ==_refl}
use hermes_security_skills.Document.{
  Fields, Value, bool_value, get_field, int_value, map_value, nil_value, seq_value, string_value,
}
use hermes_security_skills.Policy.{
  PolicyLimits, limits_from, require_deny, require_positive_int, require_true_bool,
}

-- The fields of a strict document, with the limits that are read from it.
pub record AreLimits (m : Fields) (lim : PolicyLimits) : Type 0 where
  pub entries :
      get_field (codes "max_entries_per_task") m ≡ some (int_value lim.max_entries_per_task)
  pub total : get_field (codes "max_requests_total") m ≡ some (int_value lim.max_requests_total)
  pub rps : get_field (codes "rate_limit_rps") m ≡ some (int_value lim.rate_limit_rps)
  pub concurrency : get_field (codes "max_concurrency") m ≡ some (int_value lim.max_concurrency)
  pub on_429 : get_field (codes "stop_on_429") m ≡ some (bool_value lim.stop_on_429)
  pub on_5xx :
      get_field (codes "stop_on_repeated_5xx") m ≡ some (bool_value lim.stop_on_repeated_5xx)
  pub destructive :
      get_field (codes "destructive_payloads") m ≡ some (string_value lim.destructive_payloads)
  pub exfiltration :
      get_field (codes "exfiltration_payloads") m ≡ some (string_value lim.exfiltration_payloads)
  pub credential :
      get_field (codes "credential_attack_lists") m
      ≡ some (string_value lim.credential_attack_lists)
  pub positive :
      (pos 1 ≤ℤ lim.max_entries_per_task)
      × (pos 1 ≤ℤ lim.max_requests_total)
      × (pos 1 ≤ℤ lim.rate_limit_rps)
      × (pos 1 ≤ℤ lim.max_concurrency)
  pub stops : (lim.stop_on_429 ≡ true) × (lim.stop_on_repeated_5xx ≡ true)
  pub denies :
      (lim.destructive_payloads ≡ codes "deny")
      × (lim.exfiltration_payloads ≡ codes "deny")
      × (lim.credential_attack_lists ≡ codes "deny")

abbrev IsInt : Fields → Text → ℤ → Type 0
IsInt m name n = (get_field name m ≡ some (int_value n)) × (pos 1 ≤ℤ n)

abbrev IsTrue : Fields → Text → Bool → Type 0
IsTrue m name b = (get_field name m ≡ some (bool_value b)) × (b ≡ true)

abbrev IsDeny : Fields → Text → Text → Type 0
IsDeny m name s = (get_field name m ≡ some (string_value s)) × (s ≡ codes "deny")

require_positive_int_iff :
    (m : Fields) (name : Text) (n : ℤ) → (require_positive_int m name ≡ ok n) ↔ IsInt m name n
unfolding require_positive_int
require_positive_int_iff m name n = (to, from)
  where
    read :
        (o : Option Value)
        → get_field name m ≡ o
        → require_positive_int m name ≡ ok n
        → IsInt m name n
    read none e h = absurd (ground arith)
    read (some (int_value k)) e h = elim (Bool-cases (lebℤ k (pos 0))) [
      | inl small ↦ absurd (ground arith)
      | inr large ↦
          let same : k ≡ n = ground arith in
          (e ∙ ap (λ x. some (int_value x)) same, rw (sym same) (ground arith))
    ]
    read (some nil_value) e h = absurd (ground arith)
    read (some (bool_value _)) e h = absurd (ground arith)
    read (some (string_value _)) e h = absurd (ground arith)
    read (some (seq_value _)) e h = absurd (ground arith)
    read (some (map_value _)) e h = absurd (ground arith)

    to : require_positive_int m name ≡ ok n → IsInt m name n
    to h = read (get_field name m) refl h

    from : IsInt m name n → require_positive_int m name ≡ ok n
    from (e, h) = rw (e, require_positive_int) (ground arith)

require_true_bool_iff :
    (m : Fields) (name : Text) (b : Bool) → (require_true_bool m name ≡ ok b) ↔ IsTrue m name b
unfolding require_true_bool
require_true_bool_iff m name b = (to, from)
  where
    read :
        (o : Option Value)
        → get_field name m ≡ o
        → require_true_bool m name ≡ ok b
        → IsTrue m name b
    read none e h = absurd (ground arith)
    read (some (bool_value true)) e h =
        let same : true ≡ b = ground arith in (e ∙ ap (λ x. some (bool_value x)) same, sym same)
    read (some (bool_value false)) e h = absurd (ground arith)
    read (some nil_value) e h = absurd (ground arith)
    read (some (int_value _)) e h = absurd (ground arith)
    read (some (string_value _)) e h = absurd (ground arith)
    read (some (seq_value _)) e h = absurd (ground arith)
    read (some (map_value _)) e h = absurd (ground arith)

    to : require_true_bool m name ≡ ok b → IsTrue m name b
    to h = read (get_field name m) refl h

    from : IsTrue m name b → require_true_bool m name ≡ ok b
    from (e, h) = rw (e, h, require_true_bool) refl

require_deny_iff : (m : Fields) (name s : Text) → (require_deny m name ≡ ok s) ↔ IsDeny m name s
unfolding require_deny
require_deny_iff m name s = (to, from)
  where
    read : (o : Option Value) → get_field name m ≡ o → require_deny m name ≡ ok s → IsDeny m name s
    read none e h = absurd (ground arith)
    read (some (string_value k)) e h = elim (Bool-cases (k == codes "deny")) [
      | inr other ↦ absurd (ground arith)
      | inl is_deny ↦
          let same : k ≡ s = ground arith in
          (e ∙ ap (λ x. some (string_value x)) same, sym same ∙ (==_iff k (codes "deny")).0 is_deny)
    ]
    read (some nil_value) e h = absurd (ground arith)
    read (some (bool_value _)) e h = absurd (ground arith)
    read (some (int_value _)) e h = absurd (ground arith)
    read (some (seq_value _)) e h = absurd (ground arith)
    read (some (map_value _)) e h = absurd (ground arith)

    to : require_deny m name ≡ ok s → IsDeny m name s
    to h = read (get_field name m) refl h

    from : IsDeny m name s → require_deny m name ≡ ok s
    from (e, h) = rw (e, h, require_deny, ==_refl (codes "deny")) refl

limits_from-AreLimits : (m : Fields) (lim : PolicyLimits) → limits_from m ≡ ok lim → AreLimits m lim
unfolding limits_from
limits_from-AreLimits m lim h =
    let (n1, e1, h1) = >>=-eq-ok (require_positive_int m (codes "max_entries_per_task")) _ h in
    let (n2, e2, h2) = >>=-eq-ok (require_positive_int m (codes "max_requests_total")) _ h1 in
    let (n3, e3, h3) = >>=-eq-ok (require_positive_int m (codes "rate_limit_rps")) _ h2 in
    let (n4, e4, h4) = >>=-eq-ok (require_positive_int m (codes "max_concurrency")) _ h3 in
    let (b1, e5, h5) = >>=-eq-ok (require_true_bool m (codes "stop_on_429")) _ h4 in
    let (b2, e6, h6) = >>=-eq-ok (require_true_bool m (codes "stop_on_repeated_5xx")) _ h5 in
    let (s1, e7, h7) = >>=-eq-ok (require_deny m (codes "destructive_payloads")) _ h6 in
    let (s2, e8, h8) = >>=-eq-ok (require_deny m (codes "exfiltration_payloads")) _ h7 in
    let (s3, e9, h9) = >>=-eq-ok (require_deny m (codes "credential_attack_lists")) _ h8 in
    let (f1, p1) = (require_positive_int_iff m _ n1).0 e1 in
    let (f2, p2) = (require_positive_int_iff m _ n2).0 e2 in
    let (f3, p3) = (require_positive_int_iff m _ n3).0 e3 in
    let (f4, p4) = (require_positive_int_iff m _ n4).0 e4 in
    let (f5, p5) = (require_true_bool_iff m _ b1).0 e5 in
    let (f6, p6) = (require_true_bool_iff m _ b2).0 e6 in
    let (f7, p7) = (require_deny_iff m _ s1).0 e7 in
    let (f8, p8) = (require_deny_iff m _ s2).0 e8 in
    let (f9, p9) = (require_deny_iff m _ s3).0 e9 in
    subst (AreLimits m) (ok-injective h9) (record {
      entries = f1;
      total = f2;
      rps = f3;
      concurrency = f4;
      on_429 = f5;
      on_5xx = f6;
      destructive = f7;
      exfiltration = f8;
      credential = f9;
      positive = (p1, p2, p3, p4);
      stops = (p5, p6);
      denies = (p7, p8, p9);
    })

AreLimits-limits_from : (m : Fields) (lim : PolicyLimits) → AreLimits m lim → limits_from m ≡ ok lim
unfolding limits_from
AreLimits-limits_from m lim a =
    let (p1, p2, p3, p4) = a.positive in
    let (p7, p8, p9) = a.denies in
    simp
      (
        (require_positive_int_iff m _ _).1 (a.entries, p1),
        (require_positive_int_iff m _ _).1 (a.total, p2),
        (require_positive_int_iff m _ _).1 (a.rps, p3),
        (require_positive_int_iff m _ _).1 (a.concurrency, p4),
        (require_true_bool_iff m _ _).1 (a.on_429, a.stops.0),
        (require_true_bool_iff m _ _).1 (a.on_5xx, a.stops.1),
        (require_deny_iff m _ _).1 (a.destructive, p7),
        (require_deny_iff m _ _).1 (a.exfiltration, p8),
        (require_deny_iff m _ _).1 (a.credential, p9),
        limits_from,
      )
      refl

-- The limits that are read from payload_policy are exactly those of a strict document: every field
-- is there with its type, the numbers are positive, both stop conditions are on, and the three
-- categories of payloads are denied.
pub limits_from_iff : (m : Fields) (lim : PolicyLimits) → (limits_from m ≡ ok lim) ↔ AreLimits m lim
limits_from_iff m lim = (limits_from-AreLimits m lim, AreLimits-limits_from m lim)
