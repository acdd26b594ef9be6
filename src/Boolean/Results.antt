-- ===== src/Boolean/Results.antt =====
-- Predicates on the results of actions.
use fortsym.Base.{◌≡◌, refl, Bool, true, false, Error, Result, ok, err, if◌then◌else◌}
use fortsym.Handles.{Store, Action, pure, raise, lift, continue, ◌>>=◌}

abbrev pub OnOk : {A : Type 0} → (A → Type 0) → Result A → Type 0
OnOk P (ok a) = P a
OnOk P (err x) = Unit

-- Whatever the store is, a result satisfies `P`.
pub record Gives {A : Type 0} (P : A → Type 0) (m : Action A) : Type 0 where
  pub at : (s : Store) → OnOk P (m s).0

module _ {A : Type 0} {P : A → Type 0} where
  pub Gives-pure : (a : A) → P a → Gives P (pure a)
  Gives-pure a h = record { at = λ s. h }

  pub Gives-raise : (x : Error) → Gives P (raise x)
  Gives-raise x = record { at = λ s. tt }

  pub Gives-lift : (r : Result A) → OnOk P r → Gives P (lift r)
  Gives-lift r h = record { at = λ s. h }

  pub Gives-if :
      (b : Bool) (m n : Action A)
      → (b ≡ true → Gives P m)
      → (b ≡ false → Gives P n)
      → Gives P (if b then m else n)
  Gives-if true m n h k = h refl
  Gives-if false m n h k = k refl

module _ {A B : Type 0} {Q : A → Type 0} {P : B → Type 0} where
  pub Gives-bind :
      (m : Action A) (f : A → Action B)
      → Gives Q m
      → ((a : A) → Q a → Gives P (f a))
      → Gives P (m >>= f)
  Gives-bind m f h k = record { at = λ s. let q = m s in go q.0 q.1 (h.at s) }
    where
      go : (r : Result A) (t : Store) → OnOk Q r → OnOk P (continue r f t).0
      go (ok a) t g = (k a g).at t
      go (err x) t g = tt
