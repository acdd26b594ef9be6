-- ===== src/Architecture/Search.antt =====
-- `find_cycles`: the depth-first search, on a graph from names to the sets of names that they use.
use fortsym.Base.{
  ℕ, zero, suc, List, [], ◌∷◌, ◌++◌, length, Option, none, some, Error, value_error, key_error,
  ◌==◌, nat_eq, nat_beq, Eq, contains, if◌then◌else◌,
}
use fortsym.Base.Dict.{Dict, keys, lookup, insert}
use fortsym.Base.Order.{Order, sorted}

-- `state`: 1 for a name that is being visited, 2 for one that is done, and nothing before.
pub record Search (K : Type 0) : Type 0 where
  pub state : Dict K ℕ
  pub stack : List K
  pub cycles : List (List K)

-- `stuck` is a recursion that is deeper than the rounds given.
pub data Outcome (A : Type 0) : Type 0 where
  done : A → Outcome A
  raised : Error → Outcome A
  stuck : Outcome A

infixl 5 ◌then◌
abbrev pub ◌then◌ : {A B : Type 0} → Outcome A → (A → Outcome B) → Outcome B
done a then f = f a
raised x then f = raised x
stuck then f = stuck

abbrev pub colour_of : Option ℕ → ℕ
colour_of none = 0
colour_of (some n) = n

module _ {K : Type 0} ⦃e : Eq K⦄ where
  -- `state.get(name, 0)`
  abbrev pub colour : Search K → K → ℕ
  colour s name = colour_of (lookup name s.state)

  abbrev pub paint : K → ℕ → Search K → Search K
  paint name n s = record s { state = insert name n s.state }

  -- `stack[stack.index(name):]`; a name that is not there raises a `ValueError`.
  unfoldable pub stack_from : K → List K → Outcome (List K)
  stack_from name [] = raised value_error
  stack_from name (k ∷ stack) =
      let rest = stack_from name stack in if k == name then done (k ∷ stack) else rest

  abbrev pub record_cycle : K → Search K → Outcome (Search K)
  record_cycle name s = stack_from name s.stack then λ c.
      done (record s { cycles = s.cycles ++ ((c ++ name ∷ []) ∷ []) })

  -- `stack.pop()`
  abbrev pub pop : List K → List K
  pop [] = []
  pop (k ∷ []) = []
  pop (k ∷ j ∷ stack) = k ∷ pop (j ∷ stack)

  abbrev pub begin : K → Search K → Search K
  begin name s = record (paint name 1 s) { stack = s.stack ++ name ∷ [] }

  abbrev pub finish : K → Search K → Search K
  finish name s = paint name 2 (record s { stack = pop s.stack })

  -- The body of the loop, for a dependency and its colour, with `visit` for a call of it.
  abbrev pub meet : (K → Search K → Outcome (Search K)) → K → ℕ → Search K → Outcome (Search K)
  meet visit name zero s = visit name s
  meet visit name (suc zero) s = record_cycle name s
  meet visit name (suc (suc n)) s = done s

  unfoldable pub visit_each :
      Dict K (List K) → (K → Search K → Outcome (Search K)) → List K → Search K → Outcome (Search K)
  unfolding lookup insert stack_from
  visit_each graph visit [] s = done s
  visit_each graph visit (name ∷ names) s =
      (if contains name (keys graph) then meet visit name (colour s name) s else done s)
      then visit_each graph visit names

  abbrev pub used_by : Option (List K) → Outcome (List K)
  used_by none = raised key_error
  used_by (some l) = done l

module _ {K : Type 0} ⦃e : Eq K⦄ ⦃o : Order K⦄ where
  -- `visit`
  unfoldable pub visit : Dict K (List K) → ℕ → K → Search K → Outcome (Search K)
  unfolding visit_each sorted
  visit graph zero name s = stuck
  visit graph (suc rounds) name s = used_by (lookup name graph) then λ l.
      visit_each graph (visit graph rounds) (sorted l) (begin name s) then λ t. done (finish name t)

  -- The loop of `find_cycles` over the names.
  unfoldable pub visit_all : Dict K (List K) → ℕ → List K → Search K → Outcome (Search K)
  unfolding visit
  visit_all graph rounds [] s = done s
  visit_all graph rounds (name ∷ names) s =
      (if nat_beq (colour s name) 0 then visit graph rounds name s else done s)
      then visit_all graph rounds names

  abbrev pub no_search : Search K
  no_search = record { state = []; stack = []; cycles = [] }

  -- `find_cycles`; a recursion is at most as deep as there are names.
  unfoldable pub find_cycles : Dict K (List K) → Outcome (List (List K))
  unfolding visit_all sorted
  find_cycles graph =
      visit_all graph (length (keys graph)) (sorted (keys graph)) no_search then λ s. done s.cycles
