-- ===== src/Boolean/Ownership.antt =====
-- Which handles the Boolean functions leave open, whatever they return or raise.
pub mod Quiet
mod Collect
pub mod Opening
pub mod Negation
mod Body
pub mod Bodies
pub mod Equivalence
pub mod Patterns
pub use Body.{Ends}
pub use Collect.{IsKnown}
pub use Opening.{Opens, of_value}
use Body.{with_values-Ends}
use Bodies.{and_body-IsTidy, or_body-IsTidy, xor_body-IsTidy, implies_body-IsTidy}
use fortsym.Base.{List, [], ◌∷◌, All}
use fortsym.Handles.{Native, Store}
use fortsym.Handles.Frame.{IsFresh}
use fortsym.Boolean.Values.{Argument, with_values}
use fortsym.Boolean.Functions.{
  conjunction, disjunction, negation, exclusive_or, implies, and_body, or_body, xor_body,
  implies_body,
}

-- While no derivation is recorded, `And` and `Or` of Booleans, integers, strings, expressions that
-- exist and values that `sympify` refuses, so of no `Wild`, `Fraction` or `float`, at a state in
-- which nothing unmade is live: a raise and a constant leave every handle as it was; a returned
-- expression is live, and is either one that existed, with no new handle left open, or the only new
-- handle.
pub conjunction-Ends :
    (native : Native) (given : List Argument) (s : Store)
    → IsFresh s
    → All (IsKnown s) given
    → Ends s (conjunction native given s) × Ends s (disjunction native given s)
unfolding conjunction disjunction
conjunction-Ends native given s h k = (
  with_values-Ends native given (and_body native) s (and_body-IsTidy native) h k,
  with_values-Ends native given (or_body native) s (or_body-IsTidy native) h k,
)

-- While no derivation is recorded, `Xor` of any such arguments, and `Implies` of two of them, leave
-- the handles in the same way as `And` and `Or`, though they call `Not` on their own values and
-- results.
pub exclusive_or-Ends :
    (native : Native) (given : List Argument) (a b : Argument) (s : Store)
    → IsFresh s
    → All (IsKnown s) given
    → IsKnown s a
    → IsKnown s b
    → Ends s (exclusive_or native given s) × Ends s (implies native (a ∷ b ∷ []) s)
unfolding exclusive_or implies
exclusive_or-Ends native given a b s h k ka kb = (
  with_values-Ends native given (xor_body native) s (xor_body-IsTidy native) h k,
  with_values-Ends native (a ∷ b ∷ []) (implies_body native) s (implies_body-IsTidy native) h
      (ka, (kb, tt)),
)
