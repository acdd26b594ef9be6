-- ===== src/Boolean/Ownership/Patterns.antt =====
-- The handle that a `Wild` keeps for its expression.
use fortsym.Base.{arith, ℕ, String, ◌≡◌, true, false, [], ◌∷◌, nat_eq, beq_refl, string_eq}
use fortsym.Handles.{Native, Store, symbol}
use fortsym.Boolean.Values.{Argument, wild}
use fortsym.Boolean.Functions.{conjunction}

-- `And` of a `Wild` and `False` closes the expression that the `Wild` keeps, where it was open.
pub conjunction_closes_wild :
    (native : Native) (name : String) (i : ℕ) (s : Store)
    → s.live i ≡ true
    → (conjunction native
          (wild (record { id = i; term = symbol name }) ∷ Argument.flag false ∷ [])
          s).1.live
        i
      ≡ false
unfolding conjunction
conjunction_closes_wild native name i s live = ground (arith, beq_refl i)
