-- ===== src/Matrices/Entries.antt =====
-- What an entry, a slice and a minor leave open, and which entry is read.
use fortsym.Base.{
  ◌/◌, ◌%◌, ℕ, ◌≡◌, refl, sym, ap, inl, inr, ◌||◌, List, [], ◌∷◌, ◌++◌, Option, none, some, Result,
  ok, err, index_error, native_status, unsupported, get_elem?, length, Bool-cases, if◌then◌else◌,
  nat_beq,
}
use fortsym.Base.Int.{ℤ}
use fortsym.Handles.{
  Native, Term, arguments_of, Expr, Store, Action, pure, raise, lift, continue, ◌>>=◌, finally,
  close, close_all, require, function,
}
use fortsym.Handles.Frame.{
  ids, IsFresh, Frame, Frame-refl, Frame-IsFresh, Frame-trans, Frame-close_owned,
}
use fortsym.Boolean.Ownership.Quiet.{require-Quiet}
use fortsym.Boolean.Ownership.Opening.{
  Opens, Opening, one, Opening-bind, function-Opening, lift-Quiet, open_handle-Opening,
}
use fortsym.Boolean.Ownership.Negation.{finally_close, raise-Opening}
use fortsym.Matrices.Expressions.{Matrix, argument_at, argument, made_next, each}
use fortsym.Matrices.Indexing.{
  matrix_index, entry, flat_entry, flat_slice, slice_row, matrix_slice, minor_submatrix, others,
  from_expression,
}

argument_at-Opening : (o : Option Term) → Opening one (argument_at o)
argument_at-Opening none = raise-Opening (native_status 1)
argument_at-Opening (some t) = open_handle-Opening t

pub argument-Opening : (e : Expr) (i : ℕ) → Opening one (argument e i)
unfolding argument
argument-Opening e i =
    Opening-bind (require e) (λ _. argument_at (get_elem? (arguments_of e.term) i))
      (require-Quiet e) (λ _. argument_at-Opening (get_elem? (arguments_of e.term) i))

entry_of_row-Opening :
    (e : Expr) (row column : ℕ)
    → Opening one (argument e row >>= λ r. finally (argument r column) (close r))
unfolding close_all
entry_of_row-Opening e row column = record {
  at = λ s h. go s (argument e row s) ((argument-Opening e row).at s h);
}
  where
    go :
        (s : Store) (q : Result Expr × Store)
        → Opens one s q
        → Opens one s (continue q.0 (λ r. finally (argument r column) (close r)) q.1)
    go s (err x, t) o = o
    go s (ok r, t) o = finally_close (r ∷ []) (argument r column) s t o (argument-Opening r column)

entry-Opening : (m : Matrix) (row column : ℕ) → Opening one (entry m row column)
unfolding entry
entry-Opening m row column = elim (Bool-cases m.column) [
  | inl is_column ↦ elim (Bool-cases (nat_beq column 0)) [
    | inl first ↦ rw (is_column, first) (argument-Opening m.expression row)
    | inr later ↦ rw (is_column, later) (raise-Opening index_error)
  ]
  | inr is_nested ↦ rw is_nested (entry_of_row-Opening m.expression row column)
]

append-nil : {A : Type 0} (l : List A) → l ++ [] ≡ l
append-nil [] = refl
append-nil (x ∷ l) = ap (λ m. x ∷ m) (append-nil l)

ids-append : (es fs : List Expr) → ids (es ++ fs) ≡ ids es ++ ids fs
ids-append [] fs = refl
ids-append (e ∷ es) fs = ap (λ l. e.id ∷ l) (ids-append es fs)

made_next-Opens :
    (values : List Expr) (rest : List Expr → Action (List Expr)) (s t : Store)
    (q : Result Expr × Store)
    → Frame s t (ids values)
    → Opens one t q
    → ((e : Expr) (u : Store)
        → Frame s u (ids (values ++ e ∷ []))
        → Opens ids s (rest (values ++ e ∷ []) u))
    → Opens ids s (made_next values rest q)
made_next-Opens values rest s t (err x, u) h o k =
    Frame-close_owned s u values
      (rw (sym (append-nil (ids values))) (Frame-trans s t u (ids values) [] h o))
made_next-Opens values rest s t (ok e, u) h o k =
    k e u (rw (ids-append values (e ∷ [])) (Frame-trans s t u (ids values) (e.id ∷ []) h o))

each-Opens :
    {A : Type 0} (f : A → Action Expr) (xs : List A) (values : List Expr) (s t : Store)
    → ((x : A) → Opening one (f x))
    → Frame s t (ids values)
    → Opens ids s (each f xs values t)
unfolding each
each-Opens f [] values s t k h = h
each-Opens f (x ∷ xs) values s t k h =
    made_next-Opens values (each f xs) s t (f x t) h ((k x).at t (Frame-IsFresh s t (ids values) h))
      (λ e u g. each-Opens f xs (values ++ e ∷ []) s u k g)

-- The loop from the beginning.
each-Opening :
    {A : Type 0} (f : A → Action Expr) (xs : List A)
    → ((x : A) → Opening one (f x))
    → Opening ids (each f xs [])
each-Opening f xs k = record { at = λ s h. each-Opens f xs [] s s k (Frame-refl s h) }

-- A loop, and then a list of what it made, of which only the list stays.
list_of-Opening :
    (native : Native) (m : Action (List Expr))
    → Opening ids m
    → Opening one (m >>= λ es. finally (function native "List" es) (close_all es))
list_of-Opening native m h = record { at = λ s g. go s (m s) (h.at s g) }
  where
    go :
        (s : Store) (q : Result (List Expr) × Store)
        → Opens ids s q
        → Opens one s (continue q.0 (λ es. finally (function native "List" es) (close_all es)) q.1)
    go s (err x, t) o = o
    go s (ok es, t) o =
        finally_close es (function native "List" es) s t o (function-Opening native "List" es)

slice_row-Opening :
    (native : Native) (m : Matrix) (columns : List ℕ) (row : ℕ)
    → Opening one (slice_row native m columns row)
unfolding slice_row
slice_row-Opening native m columns row =
    list_of-Opening native (each (entry m row) columns [])
      (each-Opening (entry m row) columns (entry-Opening m row))

abbrev pub of_matrix : Matrix → List ℕ
of_matrix m = m.expression.id ∷ []

sized-Opens :
    (rows cols : ℕ) (s : Store) (q : Result Expr × Store)
    → Opens one s q
    → Opens of_matrix s (continue q.0 (λ e. pure (from_expression e rows cols)) q.1)
sized-Opens rows cols s (err x, t) o = o
sized-Opens rows cols s (ok e, t) o = o

matrix_slice-Opening :
    (native : Native) (m : Matrix) (rows columns : List ℕ)
    → Opening of_matrix (matrix_slice native m rows columns)
unfolding matrix_slice
matrix_slice-Opening native m rows columns = record {
  at = λ s h. go s (each (slice_row native m columns) rows [] s) (
      (each-Opening (slice_row native m columns) rows (slice_row-Opening native m columns)).at s h);
}
  where
    go :
        (s : Store) (q : Result (List Expr) × Store)
        → Opens ids s q
        → Opens of_matrix s (
            continue q.0
              (λ es. finally (function native "List" es) (close_all es) >>= λ e.
                pure (from_expression e (length rows) (length columns)))
              q.1)
    go s (err x, t) o = o
    go s (ok es, t) o =
        sized-Opens (length rows) (length columns) s
          (finally (function native "List" es) (close_all es) t)
          (finally_close es (function native "List" es) s t o (function-Opening native "List" es))

abbrev choose : Native → Matrix → ℕ → ℕ → Action Matrix
choose native m row column =
    if nat_beq m.rows 1 || nat_beq m.cols 1
    then raise unsupported
    else matrix_slice native m (others m.rows row) (others m.cols column)

minor_submatrix-Opening :
    (native : Native) (m : Matrix) (i j : ℤ) → Opening of_matrix (minor_submatrix native m i j)
unfolding minor_submatrix
minor_submatrix-Opening native m i j =
    Opening-bind (lift (matrix_index i m.rows))
      (λ row. lift (matrix_index j m.cols) >>= λ column. choose native m row column)
      (lift-Quiet (matrix_index i m.rows))
      (λ row.
        Opening-bind (lift (matrix_index j m.cols)) (choose native m row)
          (lift-Quiet (matrix_index j m.cols))
          (λ column. elim (Bool-cases (nat_beq m.rows 1 || nat_beq m.cols 1)) [
            | inl thin ↦ rw thin (raise-Opening unsupported)
            | inr wide ↦
                rw wide (matrix_slice-Opening native m (others m.rows row) (others m.cols column))
          ]))

-- While no derivation is recorded, an entry by row and column, an entry by its place in row-major
-- order, and a slice of such places leave open only the expressions that they return, and nothing
-- when they raise; so does a minor, of which only the expression stays.
pub entry-Opens :
    (native : Native) (m : Matrix) (s : Store)
    → IsFresh s
    → ((row column : ℕ) → Opens one s (entry m row column s))
      × ((indices : List ℕ) → Opens ids s (flat_slice m indices s))
      × ((i j : ℤ) → Opens of_matrix s (minor_submatrix native m i j s))
unfolding flat_slice flat_entry minor_submatrix
entry-Opens native m s h = (
  λ row column. (entry-Opening m row column).at s h,
  λ indices.
      (each-Opening (flat_entry m) indices (λ i. entry-Opening m (i / m.cols) (i % m.cols))).at s h,
  λ i j. (minor_submatrix-Opening native m i j).at s h,
)
