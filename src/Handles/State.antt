-- ===== src/Handles/State.antt =====
-- Python objects that own native handles, the state that they share, and actions on it.
use fortsym.Base.{ℕ, String, Bool, List, Error, Result, ok, err, nat_beq, if◌then◌else◌}
use fortsym.Base.Int.{ℤ}
use fortsym.Handles.Nodes.{Term}

-- What the native library builds; `err (native_status n)` is a status that is not 0.
pub record Native : Type 0 where
  pub apply : String → List Term → Result Term
  pub relate : String → Term → Term → Result Term
  pub simplify : Term → Result Term
  pub integer : ℤ → Result Term
  pub make_symbol : String → Result Term

-- A Python object of the class `Expr`; two objects differ in `id`, also when their nodes agree.
pub record Expr : Type 0 where
  pub id : ℕ
  pub term : Term

-- `live i`: the object i has a native handle. `cached i`: its `_kind_cache` is set. The objects
-- from `next` on have not been made.
pub record Store : Type 0 where
  pub next : ℕ
  pub live : ℕ → Bool
  pub cached : ℕ → Bool

abbrev pub update : (ℕ → Bool) → ℕ → Bool → ℕ → Bool
update f i b j = if nat_beq j i then b else f j

-- State and exceptions: what was opened or closed before a raise stays so.
abbrev pub Action {ℓ} : Type ℓ → Type ℓ
Action A = Store → Result A × Store

module _ {ℓ} {A : Type ℓ} where
  abbrev pub pure : A → Action A
  pure a s = (ok a, s)

  abbrev pub raise : Error → Action A
  raise e s = (err e, s)

  abbrev pub lift : Result A → Action A
  lift r s = (r, s)

module _ {ℓ κ} {A : Type ℓ} {B : Type κ} where
  abbrev pub continue : Result A → (A → Action B) → Action B
  continue (ok a) f s = f a s
  continue (err e) f s = (err e, s)

  infixl 5 ◌>>=◌
  abbrev pub ◌>>=◌ : Action A → (A → Action B) → Action B
  ◌>>=◌ m f s = let (r, s') = m s in continue r f s'

infixl 5 ◌>>◌
abbrev pub ◌>>◌ {κ} : {B : Type κ} → Action (Unit {0}) → Action B → Action B
m >> k = m >>= λ _. k

-- `try: m finally: cleanup`, for a cleanup that does not raise.
abbrev pub finally {ℓ} : {A : Type ℓ} → Action A → (Store → Store) → Action A
finally m cleanup s = let (r, s') = m s in (r, cleanup s')

-- `try: m except Exception: cleanup; raise`
abbrev pub cleaned {ℓ} : {A : Type ℓ} → (Store → Store) → Result A × Store → Result A × Store
cleaned cleanup (ok a, s) = (ok a, s)
cleaned cleanup (err e, s) = (err e, cleanup s)
