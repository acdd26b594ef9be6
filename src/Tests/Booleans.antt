-- ===== src/Tests/Booleans.antt =====
-- The theorems on the Boolean functions at concrete arguments.
use fortsym.Base.{◌≡◌, refl, true, false, [], ◌∷◌, ok, arith, nat_eq}
use fortsym.Base.Int.{int_eq}
use fortsym.Base.Order.{nat_order}
use fortsym.Handles.{Native, Term, symbol, func, Term, from_list, Expr, Store, opened, new_handle}
use fortsym.Handles.Frame.{IsFresh}
use fortsym.Boolean.{
  Argument, wild, identifier, Value, conjunction, disjunction, negation, exclusive_or, implies,
  equivalent,
}
use fortsym.Boolean.Ownership.Patterns.{conjunction_closes_wild}
use fortsym.Boolean.Ownership.{Ends, IsKnown, Opens, of_value, conjunction-Ends, exclusive_or-Ends}
use fortsym.Boolean.Ownership.Bodies.{negation-Opens}
use fortsym.Boolean.Ownership.Equivalence.{equivalent_returns_closed}

-- A native library that builds every node as it is asked to.
abbrev pub free : Native
free = record {
  apply = λ f ts. ok (func f (from_list ts));
  relate = λ f a b. ok (func f (from_list (a ∷ b ∷ [])));
  simplify = λ t. ok t;
  integer = λ n. ok (Term.number 1 "1");
  make_symbol = λ x. ok (symbol x);
}

abbrev pub nothing : Store
nothing = record { next = 0; live = λ i. false; cached = λ i. false }

abbrev pub one_open : Store
one_open = opened nothing

nothing-IsFresh : IsFresh nothing
nothing-IsFresh i h = refl

pub one_open-IsFresh : IsFresh one_open
one_open-IsFresh i h = ground arith

abbrev pub x : Argument
x = Argument.node (new_handle (symbol "x") nothing)

abbrev pub y : Argument
y = identifier "y"

x-IsKnown : IsKnown one_open x
x-IsKnown = omega arith

conjunction-Ends_example :
    Ends one_open (conjunction free (x ∷ y ∷ []) one_open)
    × Ends one_open (disjunction free (x ∷ y ∷ []) one_open)
conjunction-Ends_example =
    conjunction-Ends free (x ∷ y ∷ []) one_open one_open-IsFresh (x-IsKnown, (tt, tt))

exclusive_or-Ends_example :
    Ends one_open (exclusive_or free (x ∷ y ∷ []) one_open)
    × Ends one_open (implies free (x ∷ y ∷ []) one_open)
exclusive_or-Ends_example =
    exclusive_or-Ends free (x ∷ y ∷ []) x y one_open one_open-IsFresh (x-IsKnown, (tt, tt))
      x-IsKnown tt

negation-Opens_example : Opens of_value one_open (negation free x one_open)
negation-Opens_example = negation-Opens free x one_open one_open-IsFresh x-IsKnown

equivalent_returns_closed_example :
    (e : Expr) × (t : Store) × (equivalent free (Argument.flag true ∷ identifier "p" ∷ []) nothing
      ≡ (ok (Value.node e), t))
    × (t.live e.id ≡ false)
equivalent_returns_closed_example = equivalent_returns_closed free "p" nothing refl

conjunction_closes_wild_example :
    (conjunction free
        (wild (record { id = 0; term = symbol "a" }) ∷ Argument.flag false ∷ [])
        one_open).1.live
      0
    ≡ false
conjunction_closes_wild_example = conjunction_closes_wild free "a" 0 one_open refl
