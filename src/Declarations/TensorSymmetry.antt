-- ===== src/Declarations/TensorSymmetry.antt =====
-- `TensorSymmetry` of python/fortsym/sympy/__init__.py.
pub mod Laws
use fortsym.Base.{
  ℕ, zero, suc, ◌+◌, ◌-◌, Bool, true, false, ◌&&◌, ◌||◌, List, [], ◌∷◌, ◌++◌, map, Result, ok, err,
  value_error, index_error, ◌>>=◌, ◌>>◌, guard, if◌then◌else◌,
}
use fortsym.Base.Int.{ℤ, pos, negsuc, ltb_ℤ, leb_ℤ}
use fortsym.Declarations.Symmetry.{
  KindInput, number, Item, triple, symmetric, antisymmetric, in_rank,
}

-- The three parts of a pair declaration; the constructor of the class does not look at the kind.
abbrev pub Pair : Type 0
Pair = ℤ × ℤ × KindInput

pub record TensorSymmetry : Type 0 where
  pub rank : ℤ
  pub pairs : List Pair

-- The loop of `__init__`.
normalized : ℤ → List Pair → Result (List Pair)
normalized rank [] = ok []
normalized rank ((a, b, k) ∷ rest) = do
  guard (in_rank rank a && in_rank rank b) index_error
  l ← normalized rank rest
  ok ((a, b, k) ∷ l)

-- `TensorSymmetry(rank, pairs)`
unfoldable pub tensor_symmetry : ℤ → List Pair → Result TensorSymmetry
unfolding normalized
tensor_symmetry rank pairs = do
  guard (leb_ℤ (pos 0) rank) value_error
  l ← normalized rank pairs
  ok (record { rank = rank; pairs = l })

-- `range(first, first + count)`
abbrev pub range : ℕ → ℕ → List ℕ
range first zero = []
range first (suc count) = first ∷ range (suc first) count

-- `for second in range(first + 1, rank)`, with `left` slots after `first`.
abbrev pub pairs_from : KindInput → ℕ → List ℕ → List Pair
pairs_from kind first [] = []
pairs_from kind first (second ∷ rest) = (pos first, pos second, kind) ∷ pairs_from kind first rest

-- `for first in range(int(rank))`, with `left` slots from `first` on.
unfoldable pub slot_pairs : KindInput → ℕ → ℕ → List Pair
slot_pairs kind first zero = []
slot_pairs kind first (suc left) =
    pairs_from kind first (range (suc first) left) ++ slot_pairs kind (suc first) left

-- `range` of a negative rank is empty.
abbrev pub all_pairs : KindInput → ℤ → List Pair
all_pairs kind (pos rank) = slot_pairs kind 0 rank
all_pairs kind (negsuc n) = []

pub no_symmetry : ℤ → Result TensorSymmetry
unfolding tensor_symmetry
no_symmetry rank = tensor_symmetry rank []

unfoldable pub fully_symmetric : ℤ → Result TensorSymmetry
unfolding tensor_symmetry slot_pairs
fully_symmetric rank = tensor_symmetry rank (all_pairs (number symmetric) rank)

unfoldable pub fully_antisymmetric : ℤ → Result TensorSymmetry
unfolding tensor_symmetry slot_pairs
fully_antisymmetric rank = tensor_symmetry rank (all_pairs (number antisymmetric) rank)

pub pair_symmetric : ℤ → ℤ → ℤ → Result TensorSymmetry
unfolding tensor_symmetry
pair_symmetric rank a b = tensor_symmetry rank ((a, b, number symmetric) ∷ [])

pub pair_antisymmetric : ℤ → ℤ → ℤ → Result TensorSymmetry
unfolding tensor_symmetry
pair_antisymmetric rank a b = tensor_symmetry rank ((a, b, number antisymmetric) ∷ [])

-- What `Chart.tensor(..., symmetries=...)` is handed.
abbrev pub as_items : List Pair → List Item
as_items [] = []
as_items ((a, b, k) ∷ rest) = triple a b k ∷ as_items rest
