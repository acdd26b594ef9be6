-- ===== src/Matrices/Equality.antt =====
-- `Matrix._entry_equality_key` and `Matrix.__eq__`.
use fortsym.Base.{
  ℕ, String, Bool, true, false, not, ◌&&◌, ◌||◌, List, [], ◌∷◌, ◌++◌, Result, ok, err,
  attribute_error, ◌==◌, string_eq, list_eq, nat_eq, nat_beq, if◌then◌else◌,
}
use fortsym.Handles.{Native, Expr, Store, Action, pure, ◌>>=◌, finally, close, simplify, exact_text}
use fortsym.Matrices.Expressions.{Matrix, KeyAttribute, missing, unset, kept, argument, count_up}

-- An entry's text, and the entry is closed.
unfoldable pub text_at : Expr → ℕ → Action (List String)
unfolding argument exact_text close
text_at e i = argument e i >>= λ x. finally (exact_text x >>= λ t. pure (t ∷ [])) (close x)

-- `values` behind the loop that appends what each index gives.
unfoldable pub texts : (ℕ → Action (List String)) → List ℕ → Action (List String)
texts f [] = pure []
texts f (i ∷ indices) = f i >>= λ first. texts f indices >>= λ rest. pure (first ++ rest)

-- The texts of a row, and the row is closed.
unfoldable pub row_texts : ℕ → Expr → ℕ → Action (List String)
unfolding argument text_at texts close
row_texts cols e i = argument e i >>= λ r. finally (texts (text_at r) (count_up 0 cols)) (close r)

unfoldable pub all_texts : Matrix → Expr → Action (List String)
unfolding text_at row_texts texts
all_texts m simplified =
    if m.column
    then texts (text_at simplified) (count_up 0 m.rows)
    else texts (row_texts m.cols simplified) (count_up 0 m.rows)

-- The key of a matrix that has none yet.
unfoldable pub new_key : Native → Matrix → Action (List String)
unfolding simplify all_texts close
new_key native m = simplify native m.expression >>= λ simplified.
    finally (all_texts m simplified) (close simplified)

abbrev pub keep_key : Result (List String) × Store → Result (List String) × (KeyAttribute × Store)
keep_key (err x, s) = (err x, (unset, s))
keep_key (ok values, s) = (ok values, (kept values, s))

-- `_entry_equality_key`, with the attribute and the handles behind it.
unfoldable pub entry_equality_key :
    Native → Matrix → KeyAttribute → Store → Result (List String) × (KeyAttribute × Store)
unfolding new_key
entry_equality_key native m missing s = (err attribute_error, (missing, s))
entry_equality_key native m (kept values) s = (ok values, (kept values, s))
entry_equality_key native m unset s = keep_key (new_key native m s)

abbrev pub Compared : Type 0
Compared = Result Bool × ((KeyAttribute × KeyAttribute) × Store)

abbrev pub compare_keys :
    List String → KeyAttribute → Result (List String) × (KeyAttribute × Store) → Compared
compare_keys left k (err x, (l, s)) = (err x, ((k, l), s))
compare_keys left k (ok right, (l, s)) = (ok (left == right), ((k, l), s))

abbrev pub compare_right :
    Native → Matrix → KeyAttribute → Result (List String) × (KeyAttribute × Store) → Compared
compare_right native b l (err x, (k, s)) = (err x, ((k, l), s))
compare_right native b l (ok left, (k, s)) = compare_keys left k (entry_equality_key native b l s)

abbrev pub same_shape : Matrix → Matrix → Bool
same_shape a b = nat_beq a.rows b.rows && nat_beq a.cols b.cols

-- `__eq__` of two matrices with their attributes: are they one object, and are they of one arena?
unfoldable pub matrix_equal :
    Native → Bool → Bool → Matrix → Matrix → KeyAttribute → KeyAttribute → Store → Compared
unfolding entry_equality_key
matrix_equal native one_object one_arena a b k l s =
    if one_object
    then (ok true, ((k, l), s))
    else if not (same_shape a b) || not one_arena
    then (ok false, ((k, l), s))
    else compare_right native b l (entry_equality_key native a k s)

abbrev pub negated : Result Bool → Result Bool
negated (ok b) = ok (not b)
negated (err x) = err x

-- `__ne__`
unfoldable pub matrix_differs :
    Native → Bool → Bool → Matrix → Matrix → KeyAttribute → KeyAttribute → Store → Compared
unfolding matrix_equal
matrix_differs native one_object one_arena a b k l s =
    let (r, rest) = matrix_equal native one_object one_arena a b k l s in (negated r, rest)
