-- ===== src/Base/Lists.antt =====
-- Lists: predicates by recursion, Boolean quantifiers, and lengths in native numbers.
use Prim.Native.Nat.{ℕ, suc}
use mathlib.Core.Path.{◌≡◌, ◌∙◌, ap, refl}
use mathlib.Core.Logic.{◌⊎◌, inl, inr}
use mathlib.Core.Bool.{Bool, true, false, ◌&&◌, ◌||◌}
use mathlib.Core.List.{List, [], ◌∷◌, ◌++◌}
use hermes_security_skills.Base.Tests.{Bool-cases, if◌then◌else◌}

abbrev pub All {ℓ κ} : {A : Type ℓ} → (A → Type κ) → List A → Type κ
All P [] = Unit
All P (x ∷ xs) = P x × All P xs

pub All-map {ℓ κ μ} :
    {A : Type ℓ} (P : A → Type κ) (Q : A → Type μ)
    → ((a : A) → P a → Q a)
    → (xs : List A) → All P xs
    → All Q xs
All-map P Q f [] h = tt
All-map P Q f (x ∷ xs) (here, rest) = (f x here, All-map P Q f xs rest)

pub ++_assoc {ℓ} : {A : Type ℓ} (xs ys zs : List A) → (xs ++ ys) ++ zs ≡ xs ++ (ys ++ zs)
++_assoc [] ys zs = refl
++_assoc (x ∷ xs) ys zs = ap (λ l. x ∷ l) (++_assoc xs ys zs)

pub All-++ {ℓ κ} :
    {A : Type ℓ} (P : A → Type κ) (xs ys : List A) → All P xs → All P ys → All P (xs ++ ys)
All-++ P [] ys _ h = h
All-++ P (x ∷ xs) ys (here, rest) h = (here, All-++ P xs ys rest h)

-- Membership with its position.
abbrev pub In : {A : Type 0} → A → List A → Type 0
In a [] = ⊥
In a (x ∷ xs) = (x ≡ a) ⊎ In a xs

module _ {ℓ} {A : Type ℓ} where
  abbrev pub length : List A → ℕ
  length [] = 0
  length (x ∷ xs) = suc (length xs)

  unfoldable pub any : (A → Bool) → List A → Bool
  any p [] = false
  any p (x ∷ xs) = p x || any p xs

  unfoldable pub all : (A → Bool) → List A → Bool
  all p [] = true
  all p (x ∷ xs) = p x && all p xs

  unfoldable pub keep : (A → Bool) → List A → List A
  keep p [] = []
  keep p (x ∷ xs) = let rest = keep p xs in if p x then x ∷ rest else rest

pub ++-empty {ℓ} : {A : Type ℓ} (xs ys : List A) → xs ++ ys ≡ [] → (xs ≡ []) × (ys ≡ [])
++-empty [] ys h = (refl, h)
++-empty (x ∷ xs) ys h = cc

pub In-++l : {A : Type 0} (x : A) (xs ys : List A) → In x xs → In x (xs ++ ys)
In-++l x [] ys h = absurd h
In-++l x (z ∷ xs) ys (inl e) = inl e
In-++l x (z ∷ xs) ys (inr h) = inr (In-++l x xs ys h)

pub In-++r : {A : Type 0} (x : A) (xs ys : List A) → In x ys → In x (xs ++ ys)
In-++r x [] ys h = h
In-++r x (z ∷ xs) ys h = inr (In-++r x xs ys h)

pub In-keep :
    {A : Type 0} (p : A → Bool) (x : A) (xs : List A) → In x xs → p x ≡ true → In x (keep p xs)
unfolding keep
In-keep p x [] h e = absurd h
In-keep p x (y ∷ ys) (inl same) e = rw (ap p same ∙ e, keep) (inl same)
In-keep p x (y ∷ ys) (inr later) e = elim (Bool-cases (p y)) [
  | inl f ↦ rw (f, keep) (inr (In-keep p x ys later e))
  | inr f ↦ rw (f, keep) (In-keep p x ys later e)
]
