-- ===== src/Matrices/Expressions.antt =====
-- `Matrix` as a list expression, and `_matrix_expression`.
use fortsym.Base.{
  ℕ, String, zero, suc, Bool, List, [], ◌∷◌, ◌++◌, Option, none, some, get_elem?, Result, ok, err,
  native_status, unsupported, if◌then◌else◌,
}
use fortsym.Handles.{
  Native, Term, arguments_of, Expr, Store, Action, pure, raise, ◌>>=◌, ◌>>◌, finally, close,
  close_all, require, open_handle, function,
}

-- The attribute `_equality_key`: `__init__` sets it to `None`, `_from_expression` does not set it.
pub data KeyAttribute : Type 0 where
  missing unset : KeyAttribute
  kept : List String → KeyAttribute

-- A `Matrix`; `column` is `_column_vector`, and `key` is `_equality_key` when the matrix is made.
pub record Matrix : Type 0 where
  pub expression : Expr
  pub rows : ℕ
  pub cols : ℕ
  pub column : Bool
  pub key : KeyAttribute

-- `Expr.argument`: status 1 for an index that is out of range.
abbrev pub argument_at : Option Term → Action Expr
argument_at none = raise (native_status 1)
argument_at (some t) = open_handle t

unfoldable pub argument : Expr → ℕ → Action Expr
unfolding require open_handle
argument e i = require e >> argument_at (get_elem? (arguments_of e.term) i)

abbrev pub made_next :
    List Expr → (List Expr → Action (List Expr)) → Result Expr × Store → Result (List Expr) × Store
made_next values rest (err x, s) = (err x, close_all values s)
made_next values rest (ok e, s) = rest (values ++ e ∷ []) s

-- A loop that appends a new expression for each item; on a raise those made so far are closed.
unfoldable pub each : {A : Type 0} → (A → Action Expr) → List A → List Expr → Action (List Expr)
unfolding close_all
each f [] values s = (ok values, s)
each f (x ∷ xs) values s = made_next values (each f xs) (f x s)

-- `range(first, first + count)`
abbrev pub count_up : ℕ → ℕ → List ℕ
count_up first zero = []
count_up first (suc count) = first ∷ count_up (suc first) count

-- `function("List", [entry])`, and then `entry.close()`
unfoldable pub make_row : Native → Expr → ℕ → Action Expr
unfolding argument function close
make_row native e i =
    argument e i >>= λ entry. finally (function native "List" (entry ∷ [])) (close entry)

-- `_matrix_expression`: the expression, and the list of what is closed behind its use.
unfoldable pub matrix_expression : Native → Matrix → Action (Expr × List Expr)
unfolding each make_row function close_all
matrix_expression native m =
    if m.column
    then (each (make_row native m.expression) (count_up 0 m.rows) [] >>= λ rows.
        finally (function native "List" rows) (close_all rows) >>= λ e. pure (e, e ∷ []))
    else pure (m.expression, [])

-- `_native_operation`
abbrev pub native_operation {ℓ} : {A : Type ℓ} → Result A × Store → Result A × Store
native_operation (err (native_status n), s) = (err unsupported, s)
native_operation q = q
