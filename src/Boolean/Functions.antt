-- ===== src/Boolean/Functions.antt =====
-- `And`, `Or`, `Not`, `Xor`, `Implies`, `Equivalent`, and `_relational` on two expressions.
use fortsym.Base.{
  ℕ, String, Bool, true, false, not, ◌&&◌, ◌||◌, List, [], ◌∷◌, map, all, any, keep, Option, none,
  some, Result, ok, err, index_error, value_error, ◌==◌, nat_eq, string_eq, contains, nat_beq,
  if◌then◌else◌,
}
use fortsym.Base.Dict.{lookup}
use fortsym.Handles.{
  Native, Expr, Store, Action, pure, raise, ◌>>=◌, ◌>>◌, finally, close, close_all, args, get_kind,
  get_name, relation, simplify, require, kind_of, name_of,
}
use fortsym.Boolean.Values.{
  Argument, Value, flag, node, number_kinds, relation_negations, keep_value, boolean_function,
  with_values,
}

abbrev pub is_flag : Bool → Value → Bool
is_flag b (flag c) = if b then c else not c
is_flag b (node e) = false

abbrev pub is_constant : Value → Bool
is_constant (flag c) = true
is_constant (node e) = false

-- `value is not True` and the like.
abbrev pub is_not : Bool → Value → Bool
is_not b v = not (is_flag b v)

-- The last steps of `And` and `Or`, on the values that are left.
abbrev pub join : Native → String → Bool → List Value → List Expr → Action (Value × List Expr)
join native name unit [] temporary = pure (flag unit, temporary)
join native name unit (v ∷ []) temporary = pure (keep_value v temporary)
join native name unit (v ∷ w ∷ values) temporary = do
  result ← boolean_function native name (v ∷ w ∷ values)
  pure (result, temporary)

unfoldable pub and_body : Native → List Value → List Expr → Action (Value × List Expr)
unfolding boolean_function keep_value
and_body native values temporary =
    if any (is_flag false) values
    then pure (flag false, temporary)
    else join native "And" true (keep (is_not true) values) temporary

unfoldable pub or_body : Native → List Value → List Expr → Action (Value × List Expr)
unfolding boolean_function keep_value
or_body native values temporary =
    if any (is_flag true) values
    then pure (flag true, temporary)
    else join native "Or" false (keep (is_not false) values) temporary

-- `And`
unfoldable pub conjunction : Native → List Argument → Action Value
unfolding with_values and_body
conjunction native arguments = with_values native arguments (and_body native)

-- `Or`
unfoldable pub disjunction : Native → List Argument → Action Value
unfolding with_values or_body
disjunction native arguments = with_values native arguments (or_body native)

-- `_relational` on two expressions. `x is y` compares the objects; of a handle that nobody has
-- asked for its kind `_kind_cache` is `None`, here `none`.
abbrev pub kind_cache : Store → Expr → Option ℕ
kind_cache s e = if s.cached e.id then some (kind_of e.term) else none

abbrev pub is_number_kind : Option ℕ → Bool
is_number_kind none = false
is_number_kind (some k) = contains k number_kinds

abbrev pub is_symbol_kind : Option ℕ → Bool
is_symbol_kind none = false
is_symbol_kind (some k) = k == 4

-- `same_expression`
abbrev pub same_expression : Store → Expr → Expr → Bool
same_expression s left right =
    nat_beq left.id right.id
    || (is_symbol_kind (kind_cache s left)
        && is_symbol_kind (kind_cache s right)
        && name_of left.term == name_of right.term)

-- A relation between two numbers is kept unless it simplifies to a truth value.
unfoldable pub decide_relation : Expr → Expr → Action Value
unfolding close
decide_relation rel simplified s =
    let name = name_of simplified.term in
    if contains name ("True" ∷ "False" ∷ [])
    then (ok (flag (name == "True")), close rel (close simplified s))
    else (ok (node rel), close simplified s)

abbrev pub decided_numbers : Expr → Result Expr × Store → Result Value × Store
decided_numbers rel (err x, s) = (err x, close rel s)
decided_numbers rel (ok simplified, s) = decide_relation rel simplified s

unfoldable pub relate_numbers : Native → Expr → Action Value
unfolding simplify decide_relation close
relate_numbers native rel s = decided_numbers rel (simplify native rel s)

-- What two equal expressions are compared to without the native library.
abbrev pub decided : Bool → String → Option Bool
decided same name =
    if same && name == "Equal"
    then some true
    else if same && name == "Unequal"
    then some false
    else none

abbrev pub relate_decided : Native → String → Expr → Expr → Bool → Option Bool → Action Value
relate_decided native name left right numbers (some b) = pure (flag b)
relate_decided native name left right numbers none = do
  rel ← relation native name left right
  if numbers then relate_numbers native rel else pure (node rel)

abbrev pub relate_checked : Native → String → Expr → Expr → Action Value
relate_checked native name left right s =
    let same = same_expression s left right in
    let numbers = is_number_kind (kind_cache s left) && is_number_kind (kind_cache s right) in
    relate_decided native name left right (not same && numbers) (decided same name) s

-- `_relational`
unfoldable pub relational : Native → String → Expr → Expr → Action Value
unfolding relation relate_numbers require
relational native name left right = do require left; relate_checked native name left right

-- `children[0]` and `children[1]` of the negated relation.
abbrev pub relate_children : Native → String → List Expr → Action Value
relate_children native name (a ∷ b ∷ rest) = relational native name a b
relate_children native name (a ∷ []) = raise index_error
relate_children native name [] = raise index_error

unfoldable pub negate_relation : Native → Expr → String → Action Value
unfolding args relational close_all
negate_relation native e name = do
  children ← args e
  finally (relate_children native name children) (close_all children)

unfoldable pub negate_head : Native → Expr → Option String → Action Value
unfolding negate_relation boolean_function
negate_head native e (some name) = negate_relation native e name
negate_head native e none = boolean_function native "Not" (node e ∷ [])

unfoldable pub negate_node : Native → Expr → Action Value
unfolding get_kind get_name lookup negate_head
negate_node native e = do
  kind ← get_kind e
  if kind == 9
      then (get_name e >>= λ name. negate_head native e (lookup name relation_negations))
      else negate_head native e none

-- What `Not` returns for `values[0]`.
unfoldable pub not_value : Native → List Value → Action Value
unfolding negate_node
not_value native [] = raise index_error
not_value native (flag b ∷ values) = pure (flag (not b))
not_value native (node e ∷ values) = negate_node native e

unfoldable pub not_body : Native → List Value → List Expr → Action (Value × List Expr)
unfolding not_value
not_body native values temporary = do v ← not_value native values; pure (v, temporary)

-- `Not`
unfoldable pub negation : Native → Argument → Action Value
unfolding with_values not_body
negation native argument = with_values native (argument ∷ []) (not_body native)

-- `sum(value is True for value in values) % 2`
abbrev pub parity : List Value → Bool
parity [] = false
parity (v ∷ values) = if is_flag true v then not (parity values) else parity values

-- `Not(result)`, and then `result.close()`
abbrev pub close_value : Value → Store → Store
close_value (flag b) s = s
close_value (node e) s = close e s

abbrev pub as_argument : Value → Argument
as_argument (flag b) = Argument.flag b
as_argument (node e) = Argument.node e

-- `Xor` on the values that are no constants, behind the parity of the others.
unfoldable pub xor_rest : Native → Bool → List Value → List Expr → Action (Value × List Expr)
unfolding boolean_function keep_value negation close
xor_rest native odd [] temporary = pure (flag odd, temporary)
xor_rest native true (v ∷ []) temporary = do
  r ← negation native (as_argument v)
  pure (r, temporary)
xor_rest native false (v ∷ []) temporary = pure (keep_value v temporary)
xor_rest native true (v ∷ w ∷ values) temporary = do
  result ← boolean_function native "Xor" (v ∷ w ∷ values)
  r ← finally (negation native (as_argument result)) (close_value result)
  pure (r, temporary)
xor_rest native false (v ∷ w ∷ values) temporary = do
  result ← boolean_function native "Xor" (v ∷ w ∷ values)
  pure (result, temporary)

unfoldable pub xor_body : Native → List Value → List Expr → Action (Value × List Expr)
unfolding xor_rest
xor_body native values temporary =
    xor_rest native (parity values) (keep (λ v. not (is_constant v)) values) temporary

-- `Xor`
unfoldable pub exclusive_or : Native → List Argument → Action Value
unfolding with_values xor_body
exclusive_or native arguments = with_values native arguments (xor_body native)

unfoldable pub implies_body : Native → List Value → List Expr → Action (Value × List Expr)
unfolding boolean_function keep_value negation
implies_body native (left ∷ right ∷ []) temporary =
    if is_flag false left || is_flag true right
    then pure (flag true, temporary)
    else if is_flag true left
    then pure (keep_value right temporary)
    else if is_flag false right
    then (do r ← negation native (as_argument left); pure (r, temporary))
    else (do r ← boolean_function native "Implies" (left ∷ right ∷ []); pure (r, temporary))
implies_body native values temporary = raise value_error

-- `Implies`
unfoldable pub implies : Native → List Argument → Action Value
unfolding with_values implies_body
implies native (left ∷ right ∷ []) = with_values native (left ∷ right ∷ []) (implies_body native)
implies native arguments = raise value_error

-- `tuple(Not(value) for value in symbolic)`
unfoldable pub negate_all : Native → List Value → Action (List Value)
unfolding negation
negate_all native [] = pure []
negate_all native (v ∷ values) = do
  r ← negation native (as_argument v)
  rs ← negate_all native values
  pure (r ∷ rs)

abbrev pub close_values : List Value → Store → Store
close_values [] s = s
close_values (v ∷ values) s = close_values values (close_value v s)

abbrev pub holds : Value → Bool
holds v = is_flag true v

-- Constants and expressions together: the expressions must all agree with the first constant.
unfoldable pub agree :
    Native → Bool → List Value → List Value → List Expr → Action (Value × List Expr)
unfolding conjunction negate_all boolean_function close
agree native first constants symbolic temporary =
    if any (is_not first) constants
    then pure (flag false, temporary)
    else if first
    then (do r ← conjunction native (map as_argument symbolic); pure (r, temporary))
    else (do
      negated ← negate_all native symbolic
      r ← finally (boolean_function native "And" negated) (close_values negated)
      pure (r, temporary))

abbrev pub same_flags : List Value → Bool
same_flags [] = true
same_flags (v ∷ values) = all (λ w. if holds v then holds w else not (holds w)) values

unfoldable pub equivalent_body : Native → List Value → List Expr → Action (Value × List Expr)
unfolding agree boolean_function
equivalent_body native [] temporary = pure (flag true, temporary)
equivalent_body native (v ∷ []) temporary = pure (flag true, temporary)
equivalent_body native (v ∷ w ∷ more) temporary =
    let values = v ∷ w ∷ more in
    if all is_constant values
    then pure (flag (same_flags values), temporary)
    else elim (keep is_constant values) [
      | [] ↦ (do r ← boolean_function native "Equivalent" values; pure (r, temporary))
      | c ∷ constants ↦
          agree native (holds c) (c ∷ constants) (keep (λ u. not (is_constant u)) values) temporary
    ]

-- `Equivalent`
unfoldable pub equivalent : Native → List Argument → Action Value
unfolding with_values equivalent_body
equivalent native arguments = with_values native arguments (equivalent_body native)
