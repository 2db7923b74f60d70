-- ===== src/Capability/Listing.antt =====
-- internal/capability/capability.go: List, Resolve and FromMap together.
use mathlib.Core.Path.{subst, ap₂}
use mathlib.Core.Option.{some-ne-none}
use hermes_security_skills.Base.{
  >>=-eq-ok, All, All-map, Bool-cases, In, List, Option-cases, [], ap, inl, inr, map, ok,
  ok-injective, refl, some, sym, ◌∙◌, ◌∷◌, ◌≡◌,
}
use hermes_security_skills.Base.Text.{Text, codes, ◌==◌}
use hermes_security_skills.Base.Text.Laws.{==_iff, ==_refl}
use hermes_security_skills.Capability.{
  Capabilities, Capability, cap_or_zero, capability_of, empty_capabilities, from_map, get_cap,
  list_capabilities, no_capabilities, optional_approval, read_capabilities, read_capability,
  require_bool, require_string, resolve_capability, sort_texts,
}
use hermes_security_skills.Capability.Order.{
  IsSorted, sort_texts-All, sort_texts-In, sort_texts-IsSorted,
}
use hermes_security_skills.Document.{
  Fields, Value, bool_value, field, int_value, map_value, mapping_of, nil_value, no_fields,
  seq_value, string_value,
}

abbrev pub IsNamed : Text × Capability → Type 0
IsNamed e = e.1.name ≡ e.0

read_capability-name :
    (name : Text) (cm : Fields) (c : Capability) → read_capability name cm ≡ ok c → c.name ≡ name
unfolding read_capability
read_capability-name name cm c h =
    let (risk, _, h1) = >>=-eq-ok (require_string cm name (codes "risk")) _ h in
    let (provider, _, h2) = >>=-eq-ok (require_string cm name (codes "default_provider")) _ h1 in
    let (scoped, _, h3) = >>=-eq-ok (require_bool cm name (codes "requires_scope")) _ h2 in
    let (networked, _, h4) = >>=-eq-ok (require_bool cm name (codes "requires_network")) _ h3 in
    let (approval, _, h5) = >>=-eq-ok (optional_approval cm name) _ h4 in
    sym (ap (λ (x : Capability). x.name) (ok-injective h5))

capability_of-name :
    (name : Text) (v : Value) (c : Capability) → capability_of name v ≡ ok c → c.name ≡ name
capability_of-name name (map_value cm) c h = read_capability-name name cm c h
capability_of-name name nil_value c h = cc
capability_of-name name (bool_value _) c h = cc
capability_of-name name (int_value _) c h = cc
capability_of-name name (string_value _) c h = cc
capability_of-name name (seq_value _) c h = cc

read_capabilities-IsNamed :
    (m : Fields) (caps : List (Text × Capability))
    → read_capabilities m ≡ ok caps
    → All IsNamed caps
unfolding read_capabilities
read_capabilities-IsNamed no_fields caps h = subst (All IsNamed) (ok-injective h) tt
read_capabilities-IsNamed (field k v rest) caps h =
    let (c, read, h1) = >>=-eq-ok (capability_of k v) _ h in
    let (cs, read_rest, h2) = >>=-eq-ok (read_capabilities rest) _ h1 in
    subst (All IsNamed) (ok-injective h2)
      (capability_of-name k v c read, read_capabilities-IsNamed rest cs read_rest)

from_map-IsNamed : (doc : Fields) (r : Capabilities) → from_map doc ≡ ok r → All IsNamed r.caps
unfolding from_map
from_map-IsNamed doc r h =
    let (m, _, h1) =
      >>=-eq-ok (mapping_of (codes "capabilities") doc no_capabilities empty_capabilities) _ h in
    let (caps, read, h2) = >>=-eq-ok (read_capabilities m) _ h1 in
    subst (λ (x : Capabilities). All IsNamed x.caps) (ok-injective h2)
      (read_capabilities-IsNamed m caps read)

-- The key is in the map, and what stands there has its name.
abbrev pub IsKey : List (Text × Capability) → Text → Type 0
IsKey caps name = (c : Capability) × (get_cap name caps ≡ some c) × (c.name ≡ name)

later_IsKey :
    (k : Text) (c : Capability) (caps : List (Text × Capability)) (name : Text)
    → c.name ≡ k
    → IsKey caps name
    → IsKey ((k, c) ∷ caps) name
unfolding get_cap
later_IsKey k c caps name named (d, found, same) = elim (Bool-cases (k == name)) [
  | inl e ↦ (c, rw (e, get_cap) refl, named ∙ (==_iff k name).0 e)
  | inr e ↦ (d, rw (e, get_cap) found, same)
]

keys-IsKey :
    (caps : List (Text × Capability)) → All IsNamed caps → All (IsKey caps) (map (λ e. e.0) caps)
unfolding get_cap
keys-IsKey [] h = tt
keys-IsKey ((k, c) ∷ caps) (named, rest) = (
  (c, rw (==_refl k, get_cap) refl, named),
  All-map (IsKey caps) (IsKey ((k, c) ∷ caps)) (λ name h. later_IsKey k c caps name named h) _
      (keys-IsKey caps rest),
)

get_cap-In :
    (name : Text) (c : Capability) (caps : List (Text × Capability))
    → get_cap name caps ≡ some c
    → In name (map (λ e. e.0) caps)
unfolding get_cap
get_cap-In name c [] h = absurd (some-ne-none _ (sym h))
get_cap-In name c ((k, d) ∷ caps) h = elim (Bool-cases (k == name)) [
  | inl e ↦ inl ((==_iff k name).0 e)
  | inr e ↦ inr (get_cap-In name c caps (rw (e, get_cap) at h))
]

In-map : {A B : Type 0} (f : A → B) (a : A) (xs : List A) → In a xs → In (f a) (map f xs)
In-map f a [] h = absurd h
In-map f a (x ∷ xs) (inl e) = inl (ap f e)
In-map f a (x ∷ xs) (inr h) = inr (In-map f a xs h)

map-named :
    (caps : List (Text × Capability)) (names : List Text)
    → All (IsKey caps) names
    → (map (λ (c : Capability). c.name) (map (λ n. cap_or_zero (get_cap n caps)) names)) ≡ names
map-named caps [] h = refl
map-named caps (n ∷ names) ((c, found, same), rest) =
    rw found (ap₂ (λ x y. x ∷ y) same (map-named caps names rest))

key_resolves :
    (r : Capabilities) (name : Text) (c : Capability)
    → get_cap name r.caps ≡ some c
    → resolve_capability r name ≡ ok c
unfolding resolve_capability
key_resolves r name c found = rw (found, resolve_capability) refl

map-resolves :
    (r : Capabilities) (names : List Text)
    → All (IsKey r.caps) names
    → All
        (λ (c : Capability). resolve_capability r c.name ≡ ok c)
        (map (λ n. cap_or_zero (get_cap n r.caps)) names)
map-resolves r [] h = tt
map-resolves r (n ∷ names) ((c, found, same), rest) = (
  rw found (ap (resolve_capability r) same ∙ key_resolves r n c found),
  map-resolves r names rest,
)

-- What List shows of a registry.
pub record IsListing (r : Capabilities) (cs : List Capability) : Type 0 where
  pub sorted : IsSorted (map (λ (c : Capability). c.name) cs)
  pub resolved : All (λ (c : Capability). resolve_capability r c.name ≡ ok c) cs
  pub complete : (name : Text) (c : Capability) → resolve_capability r name ≡ ok c → In c cs

-- Of a registry that FromMap has read, List shows the capabilities in the order of their names; each
-- is the one that Resolve gives for its name, and all that Resolve can give are there.
pub list_capabilities-IsListing :
    (doc : Fields) (r : Capabilities) → from_map doc ≡ ok r → IsListing r (list_capabilities r)
unfolding list_capabilities resolve_capability
list_capabilities-IsListing doc r h =
    let names = map (λ (e : Text × Capability). e.0) r.caps in
    let keys = sort_texts-All (IsKey r.caps) names (keys-IsKey r.caps (from_map-IsNamed doc r h)) in
    record {
      sorted = rw (map-named r.caps (sort_texts names) keys) (sort_texts-IsSorted names);
      resolved = map-resolves r (sort_texts names) keys;
      complete = λ name c k. elim (Option-cases (get_cap name r.caps)) [
        | inl e ↦ (let impossible = rw (e, resolve_capability) at k in cc)
        | inr (d, e) ↦
            let same = ok-injective (rw (e, resolve_capability) at k) in
            let listed =
              In-map (λ n. cap_or_zero (get_cap n r.caps)) name (sort_texts names)
                (sort_texts-In name names (get_cap-In name d r.caps e)) in
            subst (λ x. In x (list_capabilities r)) (ap cap_or_zero e ∙ same) listed
      ];
    }
