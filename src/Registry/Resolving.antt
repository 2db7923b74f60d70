-- ===== src/Registry/Resolving.antt =====
-- internal/registry/registry.go: what Resolve returns for a manifest that Load accepts.
use mathlib.Core.Option.{some-ne-none}
use hermes_security_skills.Base.{
  Bool-cases, List, Option, Option-cases, Result, ap, err, inl, inr, none, ok, refl, some, sym,
  true, ℕ, ◌∙◌, ◌≡◌, ◌⊎◌,
}
use hermes_security_skills.Base.Text.{Text, is_blank, trim_space}
use hermes_security_skills.Document.{Fields}
use hermes_security_skills.Registry.{
  Image, Manifest, RegistryError, empty_id, image_name, index_of, load_manifest, nth, ref, resolve,
  unknown_image,
}
use hermes_security_skills.Registry.Manifests.{load_manifest-IsManifest}

-- The answer of Resolve for a validator: the reference of the image that has its name.
abbrev pub Resolved : Manifest → Text → Option (Result RegistryError Text) → Type 0
Resolved m id none = ⊥
Resolved m id (some (ok r)) =
    (img : Image) × ((i : ℕ) × (nth i m.images ≡ some img))
    × (img.name ≡ image_name (trim_space id))
    × (r ≡ ref img)
Resolved m id (some (err e)) =
    ((e ≡ empty_id) × (is_blank id ≡ true))
    ⊎ ((e ≡ unknown_image)
        × ((i : ℕ) (img : Image)
            → nth i m.images ≡ some img
            → ¬ (img.name ≡ image_name (trim_space id))))

-- For a manifest that Load accepts, Resolve never indexes out of range: it returns the reference of
-- an image with the name that the validator stands for, or an error, which it gives only for a blank
-- validator or where no image of the manifest has that name.
pub resolve-Resolved :
    (parse : List ℕ → Option Fields) (file : Option (List ℕ)) (m : Manifest) (id : Text)
    → load_manifest parse file ≡ ok m
    → Resolved m id (resolve m id)
unfolding resolve
resolve-Resolved parse file m id h =
    let good = load_manifest-IsManifest parse file m h in
    let name = image_name (trim_space id) in
    elim (Bool-cases (is_blank id)) [
      | inl blank ↦ rw (blank, resolve) (inl (refl, blank))
      | inr given ↦ elim (Option-cases (index_of name m.by_name)) [
        | inl f ↦
            rw (given, f, resolve)
              (inr (
                refl,
                λ i img e same.
                    some-ne-none _
                      (sym (good.found i img e) ∙ ap (λ n. index_of n m.by_name) same ∙ f),
              ))
        | inr (i, f) ↦
            let (img, at_i, named) = good.points name i f in
            rw (given, f, at_i, resolve) (img, (i, at_i), named, refl)
      ]
    ]
