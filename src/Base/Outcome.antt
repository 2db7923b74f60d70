-- ===== src/Base/Outcome.antt =====
-- A Go function that returns `(A, error)`: a value, or the kind of its error.
use mathlib.Core.Path.{◌≡◌, refl, ap}
use mathlib.Core.Logic.{◌⊎◌, inl, inr}
use mathlib.Core.Bool.{Bool, true, false}
use mathlib.Core.Option.{Option, none, some}

pub data Result {ℓ} (E A : Type ℓ) : Type ℓ where
  err : E → Result E A
  ok : A → Result E A

-- The rest of a function runs only where the call before it returned no error.
infixl 5 ◌>>=◌ ◌>>◌
abbrev pub ◌>>=◌ {ℓ} : {E A B : Type ℓ} → Result E A → (A → Result E B) → Result E B
err failure >>= rest = err failure
ok value >>= rest = rest value

abbrev pub ◌>>◌ {ℓ} : {E A B : Type ℓ} → Result E A → Result E B → Result E B
call >> rest = call >>= λ _. rest

-- `if bad { return err }`
abbrev pub deny_if {ℓ} : {E : Type ℓ} → Bool → E → Result E (Unit {ℓ})
deny_if false failure = ok tt
deny_if true failure = err failure

abbrev pub map_err : {E F A : Type 0} → (E → F) → Result E A → Result F A
map_err f (err e) = err (f e)
map_err f (ok a) = ok a

abbrev pub map_some : {A B : Type 0} → (A → B) → Option A → Option B
map_some f none = none
map_some f (some a) = some (f a)

module _ {ℓ} {E A : Type ℓ} where
  pub Result-cases : (r : Result E A) → ((a : A) × (r ≡ ok a)) ⊎ ((failure : E) × (r ≡ err failure))
  Result-cases (err failure) = inr (failure, refl)
  Result-cases (ok a) = inl (a, refl)

module _ {E A : Type 0} where
  -- What follows a passed guard.
  pub guard-eq-ok :
      (bad : Bool) (failure : E) (rest : Unit {0} → Result E A) {a : A}
      → (deny_if bad failure >>= rest) ≡ ok a
      → (bad ≡ false) × (rest tt ≡ ok a)
  guard-eq-ok false failure rest passed = (refl, passed)
  guard-eq-ok true failure rest passed = cc

  pub ok-injective : {a b : A} → ◌≡◌ {A = Result E A} (ok a) (ok b) → a ≡ b
  ok-injective same = cc

module _ {E A B : Type 0} where
  -- A sequence that returned a value: what its first part returned, and what the rest made of it.
  pub >>=-eq-ok :
      (call : Result E A) (rest : A → Result E B) {value : B}
      → (call >>= rest) ≡ ok value
      → (between : A) × (call ≡ ok between) × (rest between ≡ ok value)
  >>=-eq-ok (err failure) rest passed = cc
  >>=-eq-ok (ok between) rest passed = (between, refl, passed)

pub map_err-eq-ok :
    {E F A : Type 0} (f : E → F) (call : Result E A) (a : A) → map_err f call ≡ ok a → call ≡ ok a
map_err-eq-ok f (err e) a h = cc
map_err-eq-ok f (ok x) a h = ap (λ y. ok y) (ok-injective h)
