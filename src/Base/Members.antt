-- ===== src/Base/Members.antt =====
-- Membership in lists, by an equality test.
use fortsym.Base.Equality.{Eq, ◌==◌, contains, beq_refl}
use fortsym.Base.Tests.{Bool-cases}
use fortsym.Base.Lists.{keep, length}
use mathlib.Core.Path.{◌≡◌, refl}
use mathlib.Core.Logic.{inl, inr}
use mathlib.Core.Bool.{Bool, true, false, ◌&&◌, ◌||◌}
use mathlib.Core.List.{List, [], ◌∷◌, ◌++◌}
use mathlib.Core.Option.{Option, none, some}
use native.Mathlib.Omega.{arith}

abbrev pub is_some {ℓ} : {A : Type ℓ} → Option A → Bool
is_some none = false
is_some (some x) = true

pub no_length {ℓ} : {A : Type ℓ} (l : List A) → length l ≡ 0 → l ≡ []
no_length [] h = refl
no_length (x ∷ l) h = absurd (omega arith)

module _ {ℓ} {A : Type ℓ} ⦃e : Eq A⦄ where
  pub contains-keep :
      (a : A) (p : A → Bool) (l : List A) → contains a (keep p l) ≡ (p a && contains a l)
  contains-keep a p [] = ground arith
  contains-keep a p (b ∷ l) = elim (Bool-cases (a == b)) [
    | inl same ↦
        let q : a ≡ b = (e.beq_iff a b).0 same in
        rw q (ground (arith, beq_refl b, contains-keep b p l))
    | inr other ↦ ground (arith, contains-keep a p l)
  ]

  pub contains-append :
      (a : A) (k l : List A) → contains a (k ++ l) ≡ (contains a k || contains a l)
  contains-append a [] l = refl
  contains-append a (b ∷ k) l = ground (arith, contains-append a k l)

  -- A list without members is empty.
  pub empty_of_contains : (l : List A) → ((a : A) → contains a l ≡ false) → l ≡ []
  empty_of_contains [] h = refl
  empty_of_contains (b ∷ l) h = ground (arith, h b, beq_refl b)

  pub contains-no_length : (a : A) (l : List A) → length l ≡ 0 → contains a l ≡ false
  contains-no_length a [] h = refl
  contains-no_length a (b ∷ l) h = absurd (omega arith)
