-- ===== src/Declarations/TensorSymmetry/Laws.antt =====
-- `TensorSymmetry.fully_symmetric` and `fully_antisymmetric` declare every pair of slots once.
use fortsym.Base.{
  ℕ, zero, suc, ◌+◌, ◌*◌, ◌≤◌, ◌<◌, ◌≡◌, refl, ap, true, List, [], ◌∷◌, ◌++◌, All, arith, ok,
  length, length-append,
}
use fortsym.Base.Int.{ℤ, pos, int_eq, ltb_ℤ}
use fortsym.Declarations.Symmetry.{
  KindInput, number, symmetric, antisymmetric, in_rank, symmetry_kind, items, Symmetries,
  normalize_symmetries,
}
use fortsym.Declarations.Symmetry.Laws.{
  symmetry_kind_iff, in_rank_iff, differ_iff, IsAccepted, normalize_symmetries_iff,
}
use fortsym.Declarations.TensorSymmetry.{
  Pair, TensorSymmetry, normalized, tensor_symmetry, range, pairs_from, slot_pairs, all_pairs,
  fully_symmetric, fully_antisymmetric, as_items,
}

-- Two numbers of which the first is the smaller, both below `rank`.
abbrev pub IsOrdered : ℕ → Pair → Type 0
IsOrdered rank (a, b, k) =
    (ltb_ℤ a b ≡ true) × (in_rank (pos rank) a ≡ true) × (in_rank (pos rank) b ≡ true)

pairs_from-IsOrdered :
    (kind : KindInput) (first next left rank : ℕ) (rest : List Pair)
    → first < next
    → next + left ≤ rank
    → All (IsOrdered rank) rest
    → All (IsOrdered rank) (pairs_from kind first (range next left) ++ rest)
pairs_from-IsOrdered kind first next zero rank rest h k r = r
pairs_from-IsOrdered kind first next (suc left) rank rest h k r = (
  (ground arith, ground arith, ground arith),
  pairs_from-IsOrdered kind first (suc next) left rank rest (omega arith) (omega arith) r,
)

slot_pairs-IsOrdered :
    (kind : KindInput) (first left rank : ℕ)
    → first + left ≤ rank
    → All (IsOrdered rank) (slot_pairs kind first left)
unfolding slot_pairs
slot_pairs-IsOrdered kind first zero rank h = tt
slot_pairs-IsOrdered kind first (suc left) rank h =
    pairs_from-IsOrdered kind first (suc first) left rank (slot_pairs kind (suc first) left)
      (omega arith) (omega arith) (slot_pairs-IsOrdered kind (suc first) left rank (omega arith))

normalized-IsOrdered :
    (rank : ℕ) (l : List Pair) → All (IsOrdered rank) l → normalized (pos rank) l ≡ ok l
unfolding normalized
normalized-IsOrdered rank [] h = refl
normalized-IsOrdered rank ((a, b, k) ∷ l) (h, hs) = rw (h.1, h.2, normalized-IsOrdered rank l hs)

length-pairs_from :
    (kind : KindInput) (first next left : ℕ)
    → length (pairs_from kind first (range next left)) ≡ left
length-pairs_from kind first next zero = refl
length-pairs_from kind first next (suc left) = ap suc (length-pairs_from kind first (suc next) left)

length-slot_pairs :
    (kind : KindInput) (first left : ℕ)
    → 2 * length (slot_pairs kind first left) + left ≡ left * left
unfolding slot_pairs
length-slot_pairs kind first zero = refl
length-slot_pairs kind first (suc left) =
    let shorter : ℕ = length (slot_pairs kind (suc first) left) in
    rw
      (
        length-append (pairs_from kind first (range (suc first) left))
            (slot_pairs kind (suc first) left),
        length-pairs_from kind first (suc first) left,
      )
      (omega (arith, length-slot_pairs kind (suc first) left))

-- A pair with a known kind and ordered slots is an item that the tables accept.
as_items-IsAccepted :
    (rank : ℕ) (l : List Pair)
    → All (IsOrdered rank) l
    → All (λ (p : Pair). (v : ℤ) × (symmetry_kind p.2 ≡ ok v)) l
    → All (IsAccepted (pos rank)) (as_items l)
as_items-IsAccepted rank [] h k = tt
as_items-IsAccepted rank ((a, b, kind) ∷ l) (h, hs) ((v, known), ks) = (
  (
    (v, (symmetry_kind_iff kind v).0 known),
    (in_rank_iff (pos rank) a).0 (ground arith),
    (in_rank_iff (pos rank) b).0 (ground arith),
    (differ_iff a b).0 (ground arith),
  ),
  as_items-IsAccepted rank l hs ks,
)

module _ (kind : KindInput) (v : ℤ) (known : symmetry_kind kind ≡ ok v) where
  pairs_from-known :
      (first : ℕ) (seconds : List ℕ) (rest : List Pair)
      → All (λ (p : Pair). (u : ℤ) × (symmetry_kind p.2 ≡ ok u)) rest
      → All
          (λ (p : Pair). (u : ℤ) × (symmetry_kind p.2 ≡ ok u))
          (pairs_from kind first seconds ++ rest)
  pairs_from-known first [] rest h = h
  pairs_from-known first (second ∷ seconds) rest h =
      ((v, known), pairs_from-known first seconds rest h)

  slot_pairs-known :
      (first left : ℕ)
      → All (λ (p : Pair). (u : ℤ) × (symmetry_kind p.2 ≡ ok u)) (slot_pairs kind first left)
  unfolding slot_pairs
  slot_pairs-known first zero = tt
  slot_pairs-known first (suc left) =
      pairs_from-known first (range (suc first) left) (slot_pairs kind (suc first) left)
        (slot_pairs-known (suc first) left)

-- The class method for every pair, its declaration's size, and the table that is made of it.
module _ (kind : KindInput) (v : ℤ) (known : symmetry_kind kind ≡ ok v) (rank : ℕ) where
  all_pairs_accepted :
      (tensor_symmetry (pos rank) (all_pairs kind (pos rank))
        ≡ ok (record { rank = pos rank; pairs = all_pairs kind (pos rank) }))
      × (2 * length (all_pairs kind (pos rank)) + rank ≡ rank * rank)
      × ((table : Symmetries) × (normalize_symmetries
              (pos rank)
              (items (as_items (all_pairs kind (pos rank))))
            ≡ ok table))
  unfolding tensor_symmetry
  all_pairs_accepted = (
    rw
        (normalized-IsOrdered rank (slot_pairs kind 0 rank)
          (slot_pairs-IsOrdered kind 0 rank rank (omega arith)))
        (ground arith),
    length-slot_pairs kind 0 rank,
    let (table, made, declared) =
          (normalize_symmetries_iff (pos rank) (items (as_items (slot_pairs kind 0 rank)))).1 (
            as_items-IsAccepted rank (slot_pairs kind 0 rank)
              (slot_pairs-IsOrdered kind 0 rank rank (omega arith))
              (slot_pairs-known kind v known 0 rank)) in
        (table, made),
  )

symmetric_known : symmetry_kind (number symmetric) ≡ ok symmetric
unfolding symmetry_kind
symmetric_known = refl

antisymmetric_known : symmetry_kind (number antisymmetric) ≡ ok antisymmetric
unfolding symmetry_kind
antisymmetric_known = refl

-- At every rank that is not negative `fully_symmetric` and `fully_antisymmetric` return
-- rank * (rank - 1) / 2 pairs, and `_normalize_symmetries` accepts each of the two lists.
pub fully_symmetric_accepted :
    (rank : ℕ)
    → ((s : TensorSymmetry) × (fully_symmetric (pos rank) ≡ ok s)
        × (2 * length s.pairs + rank ≡ rank * rank)
        × ((table : Symmetries) × (normalize_symmetries (pos rank) (items (as_items s.pairs))
              ≡ ok table)))
      × ((s : TensorSymmetry) × (fully_antisymmetric (pos rank) ≡ ok s)
          × (2 * length s.pairs + rank ≡ rank * rank)
          × ((table : Symmetries) × (normalize_symmetries (pos rank) (items (as_items s.pairs))
                ≡ ok table)))
unfolding fully_symmetric fully_antisymmetric
fully_symmetric_accepted rank =
    let s = all_pairs_accepted (number symmetric) symmetric symmetric_known rank in
    let a = all_pairs_accepted (number antisymmetric) antisymmetric antisymmetric_known rank in
    ((_, s.0, s.1, s.2), (_, a.0, a.1, a.2))
