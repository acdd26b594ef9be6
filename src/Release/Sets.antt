-- ===== src/Release/Sets.antt =====
-- Sets of names, as lists.
use fortsym.Base.{
  ◌≤◌, ◌≡◌, Bool, true, false, ◌&&◌, List, [], ◌∷◌, all, length, Eq, ◌==◌, contains, arith,
  Bool-cases, inl, inr, nat_beq, if◌then◌else◌,
}

module _ {A : Type 0} ⦃e : Eq A⦄ where
  -- `set(xs)`: each element once.
  unfoldable pub as_set : List A → List A
  as_set [] = []
  as_set (x ∷ xs) = let rest = as_set xs in if contains x xs then rest else x ∷ rest

  -- `len(xs) == len(set(xs))`
  unfoldable pub is_distinct : List A → Bool
  unfolding as_set
  is_distinct xs = nat_beq (length xs) (length (as_set xs))

  -- `set(xs) <= set(ys)`
  abbrev pub is_subset : List A → List A → Bool
  is_subset xs ys = all (λ x. contains x ys) xs

  -- `set(xs) == set(ys)`
  abbrev pub same_set : List A → List A → Bool
  same_set xs ys = is_subset xs ys && is_subset ys xs

  -- No element stands again behind itself.
  abbrev pub IsDistinct : List A → Type 0
  IsDistinct [] = Unit
  IsDistinct (x ∷ xs) = (contains x xs ≡ false) × IsDistinct xs

  length-as_set : (xs : List A) → length (as_set xs) ≤ length xs
  unfolding as_set
  length-as_set [] = omega arith
  length-as_set (x ∷ xs) = ground (arith, length-as_set xs)

  pub is_distinct-IsDistinct : (xs : List A) → is_distinct xs ≡ true → IsDistinct xs
  unfolding is_distinct as_set
  is_distinct-IsDistinct [] h = tt
  is_distinct-IsDistinct (x ∷ xs) h = elim (Bool-cases (contains x xs)) [
    | inl again ↦ absurd (ground (arith, length-as_set xs))
    | inr new ↦ (new, is_distinct-IsDistinct xs (ground arith))
  ]

  is_subset-contains :
      (xs ys : List A) (a : A)
      → is_subset xs ys ≡ true
      → contains a xs ≡ true
      → contains a ys ≡ true
  is_subset-contains [] ys a h m = absurd (cc)
  is_subset-contains (x ∷ xs) ys a h m = elim (Bool-cases (a == x)) [
    | inl same ↦ let q : a ≡ x = (e.beq_iff a x).0 same in rw q (ground arith)
    | inr other ↦ is_subset-contains xs ys a (ground arith) (ground arith)
  ]

  pub same_set-contains :
      (xs ys : List A) (a : A) → same_set xs ys ≡ true → contains a xs ≡ contains a ys
  same_set-contains xs ys a h =
      ground (arith, is_subset-contains xs ys a, is_subset-contains ys xs a)
