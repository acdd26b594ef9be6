-- ===== src/Tests/Declared.antt =====
-- The theorems on declarations at concrete inputs.
use fortsym.Base.{
  ◌≡◌, refl, ◌↔◌, inl, true, false, List, [], ◌∷◌, map, length, All, some, ok, arith, nat_eq, ◌≤◌,
  ◌+◌, ◌*◌,
}
use fortsym.Base.Int.{pos, negsuc, int_eq}
use fortsym.Base.Dict.{lookup, insert}
use fortsym.Base.Text.{codes, strip}
use fortsym.Base.Order.{nat_order}
use fortsym.Declarations.Symmetry.{
  Symmetries, KindInput, Item, triple, items, normalize_symmetries, normalize_items, symmetry_kind,
}
use fortsym.Declarations.Symmetry.Laws.{
  normalize_symmetries-IsEntry, normalize_symmetries_iff, normalize_items-exchange, IsEntry,
  IsAccepted, IsDeclared, exchange,
}
use fortsym.Declarations.TensorSymmetry.{
  TensorSymmetry, fully_symmetric, fully_antisymmetric, as_items,
}
use fortsym.Declarations.TensorSymmetry.Laws.{fully_symmetric_accepted}
use fortsym.Declarations.Signature.{Signature, signature, signature_iff, IsSignValue}
use fortsym.Declarations.IndexSpace.{
  IndexType, Index, Variance, index, compatible, IsValid, index-IsValid, compatible_laws,
}

abbrev two_items : List Item
two_items =
    triple (pos 1) (pos 0) (KindInput.name (codes "Sym"))
    ∷ triple (pos 2) (pos 1) (KindInput.number (negsuc 0))
    ∷ []

abbrev two_entries : Symmetries
two_entries = ((pos 0, pos 1), pos 1) ∷ ((pos 1, pos 2), negsuc 0) ∷ []

two_items_table : normalize_symmetries (pos 3) (items two_items) ≡ ok two_entries
unfolding normalize_symmetries symmetry_kind lookup insert
two_items_table = refl

normalize_symmetries-IsEntry_example : All (IsEntry (pos 3)) two_entries
normalize_symmetries-IsEntry_example =
    normalize_symmetries-IsEntry (pos 3) (items two_items) two_entries two_items_table

normalize_symmetries_iff_example :
    ((table : Symmetries) × (normalize_symmetries (pos 3) (items two_items) ≡ ok table)
      × All (IsDeclared two_items) table)
    ↔ All (IsAccepted (pos 3)) two_items
normalize_symmetries_iff_example = normalize_symmetries_iff (pos 3) (items two_items)

normalize_items-exchange_example :
    normalize_items (pos 3) (map exchange two_items) [] ≡ normalize_items (pos 3) two_items []
normalize_items-exchange_example = normalize_items-exchange (pos 3) two_items []

fully_symmetric_accepted_example :
    ((s : TensorSymmetry) × (fully_symmetric (pos 3) ≡ ok s)
      × (2 * length s.pairs + 3 ≡ 3 * 3)
      × ((table : Symmetries) × (normalize_symmetries (pos 3) (items (as_items s.pairs))
            ≡ ok table)))
    × ((s : TensorSymmetry) × (fully_antisymmetric (pos 3) ≡ ok s)
        × (2 * length s.pairs + 3 ≡ 3 * 3)
        × ((table : Symmetries) × (normalize_symmetries (pos 3) (items (as_items s.pairs))
              ≡ ok table)))
fully_symmetric_accepted_example = fully_symmetric_accepted 3

abbrev minkowski : Signature
minkowski = record { values = negsuc 0 ∷ pos 1 ∷ pos 1 ∷ pos 1 ∷ [] }

minkowski_accepted : signature (negsuc 0 ∷ pos 1 ∷ pos 1 ∷ pos 1 ∷ []) ≡ ok minkowski
unfolding signature
minkowski_accepted = refl

signature_iff_example : (signature (negsuc 0 ∷ pos 2 ∷ []) ≡ ok minkowski) ↔ (
    (minkowski.values ≡ negsuc 0 ∷ pos 2 ∷ [])
    × (1 ≤ 2)
    × (2 ≤ 16)
    × All IsSignValue (negsuc 0 ∷ pos 2 ∷ []))
signature_iff_example = signature_iff (negsuc 0 ∷ pos 2 ∷ []) minkowski

abbrev space : IndexType
space = record { name = codes "V"; dimension = pos 4; category = pos 1 }

abbrev upper : Index
upper = record { space = space; slot = pos 2; variance = pos 1; label = codes "a"; dummy = false }

abbrev lower_index : Index
lower_index = record { space = space; slot = pos 3; variance = negsuc 0; label = []; dummy = true }

upper_made : index space (pos 2) (Variance.name "up") (some (codes " a")) false ≡ ok upper
unfolding index strip fortsym.Declarations.IndexSpace.index_variance
upper_made = refl

index-IsValid_example : (upper.space ≡ space) × (upper.slot ≡ pos 2) × IsValid upper
index-IsValid_example =
    index-IsValid space (pos 2) (Variance.name "up") (some (codes " a")) false upper upper_made

upper-IsValid : IsValid upper
upper-IsValid = record {
  slot_low = refl;
  slot_high = refl;
  sign = inl refl;
  label_fits = omega arith;
}

compatible_laws_example :
    (compatible upper lower_index ≡ compatible lower_index upper) × (compatible upper upper ≡ false)
compatible_laws_example = compatible_laws upper lower_index upper-IsValid
