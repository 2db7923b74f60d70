-- ===== src/Registry/Manifests.antt =====
-- internal/registry/registry.go: what a manifest that Load accepts holds.
use mathlib.Core.Path.{subst}
use mathlib.Core.Option.{some-injective, some-ne-none}
use hermes_security_skills.Base.{
  >>=-eq-ok, All, Bool, Bool-cases, List, Option, Option-cases, [], ap, arith, either_true, false,
  guard-eq-ok, inl, inr, length, none, not, ok, ok-injective, refl, some, suc, sym, true, zero, ℕ,
  ◌&&◌, ◌++◌, ◌∙◌, ◌∷◌, ◌≡◌, ◌⊎◌,
}
use hermes_security_skills.Base.Text.{Text, codes, has_prefix, is_empty, ◌==◌}
use hermes_security_skills.Base.Text.Laws.{==_iff, ==_refl}
use hermes_security_skills.Document.{Fields, Items, item, no_items, read_document}
use hermes_security_skills.Registry.{
  Image, Manifest, add_image, bad_digest, egress_field, empty_manifest, fields_of, index_of,
  is_unpinned, items_of, load_images, load_manifest, no_name, no_tag, nth, parse_image, registry_of,
  text_field, unparsable_manifest, unreadable_manifest, validate_image,
}
use hermes_security_skills.Scope.Check.{parsed}

-- An image that can be run: it has a name, and it is pinned by a digest or has a tag.
pub record IsImage (img : Image) : Type 0 where
  pub named : is_empty img.name ≡ false
  pub tagged : (is_empty img.tag ≡ false) ⊎ (is_unpinned img.digest ≡ false)
  pub digest_form :
      (is_unpinned img.digest ≡ true) ⊎ (has_prefix img.digest (codes "sha256:") ≡ true)

either : (a b : Bool) → (a && b) ≡ false → (a ≡ false) ⊎ (b ≡ false)
either a b h = ground arith

validate_image-IsImage : (img img' : Image) → validate_image img ≡ ok img' → IsImage img'
unfolding validate_image
validate_image-IsImage img img' h =
    let (named, h1) = guard-eq-ok (is_empty img.name) no_name _ h in
    let (tagged, h2) = guard-eq-ok (is_empty img.tag && is_unpinned img.digest) no_tag _ h1 in
    let (form, h3) =
      guard-eq-ok (not (is_unpinned img.digest) && not (has_prefix img.digest (codes "sha256:")))
        bad_digest _ h2 in
    subst IsImage (ok-injective h3)
      (record { named = named; tagged = either _ _ tagged; digest_form = either_true _ _ form })

parse_image-IsImage : (entry : Fields) (img : Image) → parse_image entry ≡ ok img → IsImage img
unfolding parse_image
parse_image-IsImage entry img h =
    let (_, _, h1) = >>=-eq-ok (text_field entry (codes "name")) _ h in
    let (_, _, h2) = >>=-eq-ok (text_field entry (codes "tag")) _ h1 in
    let (_, _, h3) = >>=-eq-ok (text_field entry (codes "digest")) _ h2 in
    let (_, _, h4) = >>=-eq-ok (text_field entry (codes "dockerfile")) _ h3 in
    let (_, _, h5) = >>=-eq-ok (text_field entry (codes "base")) _ h4 in
    let (_, _, h6) = >>=-eq-ok (text_field entry (codes "network")) _ h5 in
    let (_, _, h7) = >>=-eq-ok (text_field entry (codes "tool")) _ h6 in
    let (_, _, h8) = >>=-eq-ok (text_field entry (codes "tool_version")) _ h7 in
    let (_, _, h9) = >>=-eq-ok (egress_field entry) _ h8 in validate_image-IsImage _ img h9

-- The image at a position, by its name.
abbrev pub IsAt : List Image → Text → ℕ → Type 0
IsAt images name i = (img : Image) × (nth i images ≡ some img) × (img.name ≡ name)

-- The map leads each name to its image, and every image is found under its name at its position, so
-- that no two images share a name.
pub record IsManifest (m : Manifest) : Type 0 where
  pub valid : All IsImage m.images
  pub points : (name : Text) (i : ℕ) → index_of name m.by_name ≡ some i → IsAt m.images name i
  pub found :
      (i : ℕ) (img : Image) → nth i m.images ≡ some img → index_of img.name m.by_name ≡ some i

All-append :
    (P : Image → Type 0) (xs : List Image) (x : Image) → All P xs → P x → All P (xs ++ x ∷ [])
All-append P [] x h hx = (hx, tt)
All-append P (y ∷ xs) x (hy, h) hx = (hy, All-append P xs x h hx)

nth-append :
    (i : ℕ) (xs : List Image) (x y : Image) → nth i xs ≡ some y → nth i (xs ++ x ∷ []) ≡ some y
nth-append i [] x y h = absurd (ground arith)
nth-append zero (z ∷ xs) x y h = h
nth-append (suc i) (z ∷ xs) x y h = nth-append i xs x y h

nth-length : (xs : List Image) (x : Image) → nth (length xs) (xs ++ x ∷ []) ≡ some x
nth-length [] x = refl
nth-length (y ∷ xs) x = nth-length xs x

nth-append-eq-some :
    (i : ℕ) (xs : List Image) (x y : Image)
    → nth i (xs ++ x ∷ []) ≡ some y
    → (nth i xs ≡ some y) ⊎ ((i ≡ length xs) × (x ≡ y))
nth-append-eq-some zero [] x y h = inr (refl, some-injective _ _ h)
nth-append-eq-some (suc i) [] x y h = absurd (ground arith)
nth-append-eq-some zero (z ∷ xs) x y h = inl h
nth-append-eq-some (suc i) (z ∷ xs) x y h = elim (nth-append-eq-some i xs x y h) [
  | inl e ↦ inl e
  | inr (e, same) ↦ inr (ap (λ n. suc n) e, same)
]

module _ (img : Image) (m : Manifest) (fresh : index_of img.name m.by_name ≡ none)
    (old : IsManifest m) where
  points-add :
      (name : Text) (i : ℕ)
      → index_of name ((img.name, length m.images) ∷ m.by_name) ≡ some i
      → IsAt (m.images ++ img ∷ []) name i
  unfolding index_of
  points-add name i e = elim (Bool-cases (img.name == name)) [
    | inl same ↦
        let here = some-injective _ _ (rw (same, index_of) at e) in
        (
          img,
          subst (λ k. nth k (m.images ++ img ∷ []) ≡ some img) here (nth-length m.images img),
          (==_iff img.name name).0 same,
        )
    | inr other ↦
        let (x, at_i, named) = old.points name i (rw (other, index_of) at e) in
        (x, nth-append i m.images img x at_i, named)
  ]

  found-add :
      (i : ℕ) (x : Image)
      → nth i (m.images ++ img ∷ []) ≡ some x
      → index_of x.name ((img.name, length m.images) ∷ m.by_name) ≡ some i
  unfolding index_of
  found-add i x e = elim (nth-append-eq-some i m.images img x e) [
    | inr (last, same) ↦
        subst (λ (y : Image). index_of y.name ((img.name, length m.images) ∷ m.by_name) ≡ some i)
          same (rw (==_refl img.name, last, index_of) refl)
    | inl before ↦
        let at_i = old.found i x before in
        elim (Bool-cases (img.name == x.name)) [
          | inl same ↦ absurd (
              some-ne-none _ (
                sym at_i
                ∙ ap (λ n. index_of n m.by_name) (sym ((==_iff img.name x.name).0 same))
                ∙ fresh))
          | inr other ↦ rw (other, index_of) at_i
        ]
  ]

add_image-IsManifest :
    (img : Image) (m m' : Manifest)
    → IsImage img
    → IsManifest m
    → add_image img m ≡ ok m'
    → IsManifest m'
unfolding add_image
add_image-IsManifest img m m' valid old h = elim (Option-cases (index_of img.name m.by_name)) [
  | inr (i, f) ↦ absurd (ground arith)
  | inl f ↦ subst IsManifest (ok-injective (rw (f, add_image) at h)) (record {
    valid = All-append IsImage m.images img old.valid valid;
    points = points-add img m f old;
    found = found-add img m f old;
  })
]

load_images-IsManifest :
    (items : Items) (m m' : Manifest) → IsManifest m → load_images items m ≡ ok m' → IsManifest m'
unfolding load_images
load_images-IsManifest no_items m m' old h = subst IsManifest (ok-injective h) old
load_images-IsManifest (item v rest) m m' old h =
    let (entry, _, h1) = >>=-eq-ok (fields_of v) _ h in
    let (img, parsed, h2) = >>=-eq-ok (parse_image entry) _ h1 in
    let (added, joined, h3) = >>=-eq-ok (add_image img m) _ h2 in
    load_images-IsManifest rest added m'
      (add_image-IsManifest img m added (parse_image-IsImage entry img parsed) old joined) h3

empty-IsManifest : (registry : Text) → IsManifest (empty_manifest registry)
unfolding index_of
empty-IsManifest registry = record {
  valid = tt;
  points = λ name i h. absurd (ground arith);
  found = λ i img h. absurd (ground arith);
}

-- Every image of a manifest that Load accepts has a name, and a digest of the form sha256:... or a
-- tag; the map of names leads to the image of each name, and every image is found under its name
-- at its position.
pub load_manifest-IsManifest :
    (parse : List ℕ → Option Fields) (file : Option (List ℕ)) (m : Manifest)
    → load_manifest parse file ≡ ok m
    → IsManifest m
unfolding load_manifest
load_manifest-IsManifest parse file m h =
    let (doc, _, h1) =
      >>=-eq-ok (read_document parse file unreadable_manifest unparsable_manifest) _ h in
    let (items, _, h2) = >>=-eq-ok (items_of doc) _ h1 in
    load_images-IsManifest items (empty_manifest (registry_of doc)) m
      (empty-IsManifest (registry_of doc)) h2
