-- ===== src/Base/Exceptions.antt =====
-- Python's exceptions as values, by class; a raised message is not modelled.
use mathlib.Core.Bool.{Bool, true, false}
use mathlib.Core.Path.{◌≡◌, refl}
use mathlib.Core.Logic.{◌⊎◌, inl, inr}
-- `native_status n` is `FortSymError` with status n; `unsupported` is `UnsupportedOperationError`,
-- `inconsistent` is `InconsistentAssumptions`.
use Prim.Native.Nat.{ℕ}

pub data Error : Type 0 where
  value_error type_error index_error key_error assertion_error unsupported inconsistent
        attribute_error runtime_error :
      Error
  native_status : ℕ → Error

pub data Result {κ} (B : Type κ) : Type κ where
  ok : B → Result B
  err : Error → Result B

pub Result-cases {ℓ} :
    {A : Type ℓ} (r : Result A) → ((a : A) × (r ≡ ok a)) ⊎ ((e : Error) × (r ≡ err e))
Result-cases (ok a) = inl (a, refl)
Result-cases (err e) = inr (e, refl)

-- `if not condition: raise error`
abbrev pub guard : Bool → Error → Result (Unit {0})
guard false x = err x
guard true x = ok tt

infixl 5 ◌>>=◌ ◌>>◌
abbrev pub ◌>>=◌ {κ μ} : {B : Type κ} {C : Type μ} → Result B → (B → Result C) → Result C
err x >>= next = err x
ok b >>= next = next b

abbrev pub ◌>>◌ {κ} : {C : Type κ} → Result (Unit {0}) → Result C → Result C
first >> second = first >>= λ u. second
