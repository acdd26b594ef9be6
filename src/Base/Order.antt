-- ===== src/Base/Order.antt =====
-- Python's `sorted` on keys with a total order.
use fortsym.Base.{
  ℕ, ◌≡◌, refl, Bool, true, false, ◌||◌, List, [], ◌∷◌, arith, Eq, nat_eq, ◌==◌, contains, leb,
  length, if◌then◌else◌, suc, ap, ◌∙◌,
}

pub record Order {ℓ} (A : Type ℓ) : Type ℓ where
  pub le : A → A → Bool
  pub total : (a b : A) → le a b ≡ false → le b a ≡ true

pub nat_total : (a b : ℕ) → leb a b ≡ false → leb b a ≡ true
nat_total a b h = ground arith

instance abbrev pub nat_order : Order ℕ
nat_order = record { le = leb; total = nat_total }

module _ {ℓ} {A : Type ℓ} ⦃o : Order A⦄ where
  -- `a` goes in front of the first element that is not below it: equal elements keep their order.
  unfoldable pub place : A → List A → List A
  place a [] = a ∷ []
  place a (x ∷ xs) = if o.le a x then a ∷ x ∷ xs else x ∷ place a xs

  unfoldable pub sorted : List A → List A
  unfolding place
  sorted [] = []
  sorted (x ∷ xs) = place x (sorted xs)

  -- Each element is at most the one behind it.
  abbrev pub IsSorted : List A → Type 0
  IsSorted [] = Unit
  IsSorted (x ∷ []) = Unit
  IsSorted (x ∷ y ∷ xs) = (o.le x y ≡ true) × IsSorted (y ∷ xs)

  place-IsSorted : (a : A) (xs : List A) → IsSorted xs → IsSorted (place a xs)
  unfolding place
  place-IsSorted a [] h = tt
  place-IsSorted a (x ∷ []) h = ground (arith, o.total a x)
  place-IsSorted a (x ∷ y ∷ xs) h = ground (arith, place-IsSorted a (y ∷ xs) h.1, o.total a x)

  pub sorted-IsSorted : (xs : List A) → IsSorted (sorted xs)
  unfolding sorted
  sorted-IsSorted [] = tt
  sorted-IsSorted (x ∷ xs) = place-IsSorted x (sorted xs) (sorted-IsSorted xs)

  length-place : (a : A) (xs : List A) → length (place a xs) ≡ suc (length xs)
  unfolding place
  length-place a [] = refl
  length-place a (x ∷ xs) = ground (arith, length-place a xs)

  pub length-sorted : (xs : List A) → length (sorted xs) ≡ length xs
  unfolding sorted
  length-sorted [] = refl
  length-sorted (x ∷ xs) = length-place x (sorted xs) ∙ ap suc (length-sorted xs)

module _ {ℓ} {A : Type ℓ} ⦃o : Order A⦄ ⦃e : Eq A⦄ where
  contains-place : (b a : A) (xs : List A) → contains b (place a xs) ≡ (b == a || contains b xs)
  unfolding place
  contains-place b a [] = refl
  contains-place b a (x ∷ xs) = ground (arith, contains-place b a xs)

  -- `sorted` keeps the members.
  pub contains-sorted : (b : A) (xs : List A) → contains b (sorted xs) ≡ contains b xs
  unfolding sorted
  contains-sorted b [] = refl
  contains-sorted b (x ∷ xs) = ground (arith, contains-place b x (sorted xs), contains-sorted b xs)

module _ {ℓ} {A : Type ℓ} ⦃o : Order A⦄ ⦃e : Eq A⦄ where
  -- The first difference decides, and a beginning comes before the whole.
  abbrev pub list_le : List A → List A → Bool
  list_le [] ys = true
  list_le (x ∷ xs) [] = false
  list_le (x ∷ xs) (y ∷ ys) = let rest = list_le xs ys in if x == y then rest else o.le x y

  pub list_total : (xs ys : List A) → list_le xs ys ≡ false → list_le ys xs ≡ true
  list_total [] ys h = absurd (cc)
  list_total (x ∷ xs) [] h = refl
  list_total (x ∷ xs) (y ∷ ys) h =
      ground (arith, e.beq_iff x y, e.beq_iff y x, list_total xs ys, o.total x y)

  instance abbrev pub list_order : Order (List A)
  list_order = record { le = list_le; total = list_total }

module _ {ℓ κ} {A : Type ℓ} {B : Type κ} ⦃o : Order A⦄ ⦃e : Eq A⦄ ⦃q : Order B⦄ where
  abbrev pub pair_le : A × B → A × B → Bool
  pair_le (a, b) (c, d) = if a == c then q.le b d else o.le a c

  pub pair_total : (x y : A × B) → pair_le x y ≡ false → pair_le y x ≡ true
  pair_total (a, b) (c, d) h =
      ground (arith, e.beq_iff a c, e.beq_iff c a, q.total b d, o.total a c)

  instance abbrev pub pair_order : Order (A × B)
  pair_order = record { le = pair_le; total = pair_total }
