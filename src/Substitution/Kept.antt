-- ===== src/Substitution/Kept.antt =====
-- `_cached_subs_many`: results that an expression keeps, with the inputs that they were made for.
use fortsym.Base.{
  ℕ, Bool, true, ◌&&◌, List, [], ◌∷◌, map, Option, none, some, Eq, ◌==◌, nat_eq, pair_eq, list_eq,
  Result, ok, err, if◌then◌else◌,
}
use fortsym.Base.Dict.{Dict, lookup, insert}
use fortsym.Substitution.Guard.{Signature, keep_recent}

-- `tuple(substitutions.items())`, of Python objects that are equal where they are the same object.
abbrev pub Inputs : Type 0 → Type 0
Inputs Object = List (Object × Object)

-- The kept inputs and results, by the epoch and the addresses of the inputs.
abbrev pub Results : Type 0 → Type 0 → Type 0
Results Object R = Dict (ℕ × Signature) (Inputs Object × R)

module _ {Object : Type 0} where
  -- `id(old), id(new)`, with `address` for `id`.
  abbrev pub pair_address : (Object → ℕ) → Object × Object → ℕ × ℕ
  pair_address address (old, new) = (address old, address new)

  abbrev pub signature_of : (Object → ℕ) → Inputs Object → Signature
  signature_of address inputs = map (pair_address address) inputs

module _ {Object : Type 0} ⦃e : Eq Object⦄ where
  -- `all(left is cached_left and right is cached_right for ... in zip(...))`: `zip` stops at the shorter.
  unfoldable pub are_same : Inputs Object → Inputs Object → Bool
  are_same [] cached = true
  are_same (p ∷ inputs) [] = true
  are_same ((left, right) ∷ inputs) ((cached_left, cached_right) ∷ cached) =
      left == cached_left && right == cached_right && are_same inputs cached

module _ {Object R : Type 0} ⦃e : Eq Object⦄ where
  -- The kept result, where it is for these inputs and has a handle.
  abbrev pub usable : (R → Bool) → Inputs Object → Option (Inputs Object × R) → Option R
  usable has_handle inputs none = none
  usable has_handle inputs (some (cached, result)) =
      if are_same inputs cached && has_handle result then some result else none

  abbrev pub keep_made :
      ℕ × Signature → Inputs Object → Result R → Results Object R → Result R × Results Object R
  keep_made key inputs (err x) cache = (err x, cache)
  keep_made key inputs (ok result) cache = (ok result, keep_recent key (inputs, result) cache)

  abbrev pub kept_or :
      Option R
      → ℕ × Signature
      → Inputs Object
      → Result R
      → Results Object R
      → Result R × Results Object R
  kept_or (some result) key inputs made cache = (ok result, cache)
  kept_or none key inputs made cache = keep_made key inputs made cache

  -- `_cached_subs_many`, with which results have a handle, the epoch, and what the native
  -- substitution gives at this call; it is called only where no kept result is usable.
  unfoldable pub cached_subs_many :
      (Object → ℕ)
      → (R → Bool)
      → ℕ
      → Inputs Object
      → Result R
      → Results Object R
      → Result R × Results Object R
  unfolding lookup insert are_same
  cached_subs_many address has_handle epoch inputs made cache =
      let key : ℕ × Signature = (epoch, signature_of address inputs) in
      kept_or (usable has_handle inputs (lookup key cache)) key inputs made cache
