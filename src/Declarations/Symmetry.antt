-- ===== src/Declarations/Symmetry.antt =====
-- `_symmetry_kind` and `_normalize_symmetries` of python/fortsym/__init__.py.
pub mod Laws
use fortsym.Base.{
  zero, suc, ◌≡◌, Bool, true, false, ◌&&◌, ◌||◌, List, [], ◌∷◌, map, Option, none, some, Eq, nat_eq,
  list_eq, pair_eq, ◌==◌, ◌/=◌, contains, Result, ok, err, value_error, index_error, ◌>>=◌, ◌>>◌,
  guard, if◌then◌else◌,
}
use fortsym.Base.Int.{ℤ, pos, negsuc, ltb_ℤ, leb_ℤ, int_eq}
use fortsym.Base.Dict.{Dict, lookup, insert}
use fortsym.Base.Text.{Text, codes, lower}

abbrev pub symmetry_none : ℤ
symmetry_none = pos 0

abbrev pub symmetric : ℤ
symmetric = pos 1

abbrev pub antisymmetric : ℤ
antisymmetric = negsuc 0

-- A kind is given by a name or by a number.
pub data KindInput : Type 0 where
  name : Text → KindInput
  number : ℤ → KindInput

abbrev kind_names : Dict Text ℤ
kind_names =
    (codes "none", symmetry_none)
    ∷ (codes "symmetric", symmetric)
    ∷ (codes "sym", symmetric)
    ∷ (codes "antisymmetric", antisymmetric)
    ∷ (codes "antisym", antisymmetric)
    ∷ []

check_kind : ℤ → Result ℤ
check_kind v =
    if contains v (symmetry_none ∷ symmetric ∷ antisymmetric ∷ []) then ok v else err value_error

named_kind : Option ℤ → Result ℤ
unfolding check_kind
named_kind none = err value_error
named_kind (some v) = check_kind v

unfoldable pub symmetry_kind : KindInput → Result ℤ
unfolding check_kind named_kind lookup
symmetry_kind (name s) = named_kind (lookup (lower s) kind_names)
symmetry_kind (number v) = check_kind v

-- An item of the declared sequence; `malformed` has another length than three.
pub data Item : Type 0 where
  triple : ℤ → ℤ → KindInput → Item
  malformed : Item

pub data Declared : Type 0 where
  absent : Declared
  mapping : Dict (ℤ × ℤ) KindInput → Declared
  items : List Item → Declared

abbrev pub in_rank : ℤ → ℤ → Bool
in_rank rank slot = leb_ℤ (pos 0) slot && ltb_ℤ slot rank

-- `tuple(sorted((first, second)))`
abbrev pub sorted_pair : ℤ → ℤ → ℤ × ℤ
sorted_pair a b = if leb_ℤ a b then (a, b) else (b, a)

abbrev pub Symmetries : Type 0
Symmetries = Dict (ℤ × ℤ) ℤ

-- The last statements of the loop's body.
abbrev pub record_kind : ℤ → ℤ → ℤ → Symmetries → Symmetries
record_kind a b kind result =
    if kind == symmetry_none then result else insert (sorted_pair a b) kind result

pub normalize_items : ℤ → List Item → Symmetries → Result Symmetries
normalize_items rank [] result = ok result
normalize_items rank (malformed ∷ rest) result = err value_error
normalize_items rank (triple a b input ∷ rest) result = do
  kind ← symmetry_kind input
  guard (in_rank rank a && in_rank rank b) index_error
  guard (a /= b) value_error
  normalize_items rank rest (record_kind a b kind result)

abbrev pub of_mapping : (ℤ × ℤ) × KindInput → Item
of_mapping ((a, b), kind) = triple a b kind

unfoldable pub normalize_symmetries : ℤ → Declared → Result Symmetries
unfolding normalize_items
normalize_symmetries rank absent = ok []
normalize_symmetries rank (mapping d) = normalize_items rank (map of_mapping d) []
normalize_symmetries rank (items l) = normalize_items rank l []
