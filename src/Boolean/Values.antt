-- ===== src/Boolean/Values.antt =====
-- Arguments, values, and `_boolean_values`, `_keep_boolean_value`, `_boolean_function`.
use fortsym.Base.{
  ℕ, String, Bool, true, false, not, List, [], ◌∷◌, ◌++◌, ok, err, Result, type_error, unsupported,
  ◌==◌, nat_eq, string_eq, contains, keep, nat_beq, if◌then◌else◌,
}
use fortsym.Base.Int.{ℤ}
use fortsym.Base.Dict.{Dict}
use fortsym.Handles.{
  Native, Expr, Store, Action, pure, raise, lift, ◌>>=◌, ◌>>◌, open_handle, close_all, require,
  get_kind, exact_text, get_name, function,
}

-- A Python argument: a `bool`, an expression of the default arena, a `Wild` with the expression that
-- it keeps, an `int`, a `str` that is an identifier, any other `str`, or a value that `sympify`
-- refuses. A `Fraction` and a `float`, which `sympify` accepts, are not among the arguments.
pub data Argument : Type 0 where
  flag : Bool → Argument
  node : Expr → Argument
  wild : Expr → Argument
  int : ℤ → Argument
  identifier source : String → Argument
  other : Argument

pub data Value : Type 0 where
  flag : Bool → Value
  node : Expr → Value

-- `sympify` on such an argument that is no `bool`, while no derivation is active, with the flag
-- `not isinstance(argument, Expr)`.
unfoldable pub convert : Native → Argument → Action (Expr × Bool)
unfolding require open_handle
convert native (Argument.flag b) = raise type_error
convert native (Argument.node e) = do require e; pure (e, false)
convert native (wild e) = do require e; pure (e, true)
convert native (int n) = do t ← lift (native.integer n); e ← open_handle t; pure (e, true)
convert native (identifier s) = do
  t ← lift (native.make_symbol s)
  e ← open_handle t
  pure (e, true)
convert native (source s) = raise unsupported
convert native other = raise type_error

abbrev pub number_kinds : List ℕ
number_kinds = 1 ∷ 2 ∷ 3 ∷ 10 ∷ 11 ∷ 12 ∷ 13 ∷ []

-- `_BOOLEAN_EXPRESSION_HEADS`
abbrev pub expression_heads : List String
expression_heads =
    "Equal" ∷ "Unequal" ∷ "Greater" ∷ "GreaterEqual" ∷ "Less" ∷ "LessEqual" ∷ "And" ∷ "Or" ∷ "Not"
    ∷ "Xor" ∷ "Implies" ∷ "Equivalent" ∷ []

-- `_BOOLEAN_RELATION_NEGATIONS`
abbrev pub relation_negations : Dict String String
relation_negations =
    ("Equal", "Unequal")
    ∷ ("Unequal", "Equal")
    ∷ ("Greater", "LessEqual")
    ∷ ("GreaterEqual", "Less")
    ∷ ("Less", "GreaterEqual")
    ∷ ("LessEqual", "Greater")
    ∷ []

-- A number is a constant by its exact text, or no Boolean.
unfoldable pub numeric_value : String → Result Value
numeric_value text =
    if text == "0"
    then ok (flag false)
    else if contains text ("1" ∷ "1/1" ∷ [])
    then ok (flag true)
    else err type_error

unfoldable pub head_value : Expr → String → Result Value
head_value e name = if contains name expression_heads then ok (node e) else err type_error

unfoldable pub classify_kind : Expr → ℕ → Action Value
unfolding exact_text get_name numeric_value head_value
classify_kind e kind =
    if contains kind number_kinds
    then (exact_text e >>= λ text. lift (numeric_value text))
    else if kind == 4
    then pure (node e)
    else if kind == 9
    then (get_name e >>= λ name. lift (head_value e name))
    else raise type_error

-- The body of the loop behind the conversion.
unfoldable pub classify : Expr → Action Value
unfolding get_kind classify_kind
classify e = do kind ← get_kind e; classify_kind e kind

abbrev pub append_if : Bool → Expr → List Expr → List Expr
append_if true e es = es ++ e ∷ []
append_if false e es = es

-- The handler `except Exception` round the body of the loop.
abbrev pub classified : List Expr → Result Value × Store → Result (Value × List Expr) × Store
classified owned (err x, s) = (err x, close_all owned s)
classified owned (ok v, s) = (ok (v, owned), s)

abbrev pub converted : List Expr → Result (Expr × Bool) × Store → Result (Value × List Expr) × Store
converted temporary (err x, s) = (err x, close_all temporary s)
converted temporary (ok (e, made), s) = classified (append_if made e temporary) (classify e s)

-- One round of the loop of `_boolean_values` on an argument that is no `bool`.
unfoldable pub collect_one : Native → Argument → List Expr → Action (Value × List Expr)
unfolding convert classify close_all
collect_one native a temporary s = converted temporary (convert native a s)

-- `_boolean_values`: the values, and the expressions that were made for them.
unfoldable pub collect :
    Native → List Argument → List Value → List Expr → Action (List Value × List Expr)
unfolding collect_one
collect native [] values temporary = pure (values, temporary)
collect native (Argument.flag b ∷ rest) values temporary =
    collect native rest (values ++ flag b ∷ []) temporary
collect native (a ∷ rest) values temporary = do
  (value, owned) ← collect_one native a temporary
  collect native rest (values ++ value ∷ []) owned

unfoldable pub boolean_values : Native → List Argument → Action (List Value × List Expr)
unfolding collect
boolean_values native arguments = collect native arguments [] []

-- `temporary[:] = [candidate for candidate in temporary if candidate is not value]`
abbrev pub without : Expr → List Expr → List Expr
without e es = keep (λ c. not (nat_beq c.id e.id)) es

-- `_keep_boolean_value`: the value, with the temporaries that are still to be closed.
unfoldable pub keep_value : Value → List Expr → Value × List Expr
keep_value (flag b) temporary = (flag b, temporary)
keep_value (node e) temporary = (node e, without e temporary)

abbrev pub nodes_of : List Value → List Expr
nodes_of [] = []
nodes_of (flag b ∷ values) = nodes_of values
nodes_of (node e ∷ values) = e ∷ nodes_of values

-- `_boolean_function`
unfoldable pub boolean_function : Native → String → List Value → Action Value
unfolding function
boolean_function native name values = do e ← function native name (nodes_of values); pure (node e)

abbrev pub Body : Type 0
Body = List Value → List Expr → Action (Value × List Expr)

-- `finally`: close the temporaries, or those of them that the body left to be closed.
abbrev pub settle : List Expr → Result (Value × List Expr) × Store → Result Value × Store
settle temporary (err x, s) = (err x, close_all temporary s)
settle temporary (ok (v, left), s) = (ok v, close_all left s)

abbrev pub run_body : Body → Result (List Value × List Expr) × Store → Result Value × Store
run_body body (err x, s) = (err x, s)
run_body body (ok (values, temporary), s) = settle temporary (body values temporary s)

-- A function's `try: body finally: close the temporaries`.
unfoldable pub with_values : Native → List Argument → Body → Action Value
unfolding boolean_values close_all
with_values native arguments body s = run_body body (boolean_values native arguments s)
