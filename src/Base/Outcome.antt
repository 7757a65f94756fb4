-- ===== src/Base/Outcome.antt =====
-- Code that may fail. `fault` is undefined behaviour of the C program or a failed assertion (a null
-- pointer read, a write outside a buffer); `out_of_fuel` ends a loop of the model.
use mathlib.Core.Option.{Option, none, some}
use mathlib.Core.Path.{◌≡◌, refl}
use mathlib.Core.Logic.{◌⊎◌, inl, inr}
use native.Mathlib.Omega.{arith}

pub data Run {ℓ} (A : Type ℓ) : Type ℓ where
  ok : A → Run A
  fault out_of_fuel : Run A

-- A pointer that the code follows without a test.
abbrev pub deref {ℓ} : {P : Type ℓ} → Option P → Run P
deref none = fault
deref (some target) = ok target

-- What goes wrong first is the outcome of the whole.
infixl 5 ◌>>=◌
abbrev pub ◌>>=◌ {κ ℓ} :
    {First : Type κ} {Last : Type ℓ} → Run First → (First → Run Last) → Run Last
fault >>= later = fault
out_of_fuel >>= later = out_of_fuel
ok result >>= later = later result

-- A result, or one of the two ways to have none.
pub Run-cases {ℓ} :
    {A : Type ℓ} (x : Run A) → ((a : A) × (x ≡ ok a)) ⊎ ((x ≡ fault) ⊎ (x ≡ out_of_fuel))
Run-cases (ok a) = inl (a, refl)
Run-cases fault = inr (inl refl)
Run-cases out_of_fuel = inr (inr refl)

pub bind-ok {κ ℓ} :
    {A : Type κ} {B : Type ℓ} (x : Run A) (f : A → Run B) {b : B}
    → (x >>= f) ≡ ok b
    → (a : A) × (x ≡ ok a) × (f a ≡ ok b)
bind-ok (ok a) f h = (a, refl, h)
bind-ok fault f h = ground arith
bind-ok out_of_fuel f h = ground arith

pub ok-injective {ℓ} : {A : Type ℓ} {a b : A} → ok a ≡ ok b → a ≡ b
ok-injective h = ground arith
