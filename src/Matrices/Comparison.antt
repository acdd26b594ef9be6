-- ===== src/Matrices/Comparison.antt =====
-- What a comparison of matrices leaves open, and when it raises.
use fortsym.Base.{
  ℕ, String, ◌≡◌, refl, Error, Bool, true, false, not, ◌||◌, List, [], ◌∷◌, ◌++◌, Result, ok, err,
  attribute_error, unsupported, arith, nat_eq, nat_beq, length, Bool-cases, inl, inr, list_eq,
  string_eq,
}
use fortsym.Handles.{
  Native, Expr, Store, Action, pure, continue, ◌>>=◌, finally, close, close_all, simplify,
  exact_text, lift, function,
}
use fortsym.Handles.Frame.{IsFresh, Frame, Frame-refl, Frame-IsFresh, Frame-trans}
use fortsym.Boolean.Ownership.Opening.{Opens, Opening, one, simplify-Opening}
use fortsym.Boolean.Ownership.Negation.{finally_close}
use fortsym.Matrices.Expressions.{
  Matrix, KeyAttribute, missing, unset, kept, argument, count_up, each,
}
use fortsym.Matrices.Indexing.{
  matrix_index, others, slice_row, from_expression, matrix_slice, minor_submatrix,
}
use fortsym.Boolean.Results.{OnOk, Gives, Gives-pure, Gives-raise, Gives-bind, Gives-if}
use fortsym.Base.Int.{ℤ}
use fortsym.Matrices.Equality.{
  text_at, texts, row_texts, all_texts, new_key, keep_key, entry_equality_key, compare_keys,
  compare_right, same_shape, matrix_equal,
}
use fortsym.Matrices.Entries.{argument-Opening}

-- Of any result nothing is said.
any_result : {A : Type 0} (m : Action A) → Gives (λ a. Unit) m
any_result {A} m = record { at = λ s. any_of (m s).0 }
  where
    any_of : (r : Result A) → OnOk (λ a. Unit) r
    any_of (ok a) = tt
    any_of (err x) = tt

-- A result that owns no handle.
abbrev no_handle : {A : Type 0} → A → List ℕ
no_handle a = []

pure-Opening : {A : Type 0} (a : A) → Opening no_handle (pure a)
pure-Opening a = record { at = λ s h. Frame-refl s h }

Opening-then :
    {A B : Type 0} (m : Action A) (f : A → Action B)
    → Opening no_handle m
    → ((a : A) → Opening no_handle (f a))
    → Opening no_handle (m >>= f)
Opening-then {A} {B} m f h k = record { at = λ s g. go s (m s) (h.at s g) }
  where
    chain :
        (s t : Store) (p : Result B × Store)
        → Frame s t []
        → Opens no_handle t p
        → Opens no_handle s p
    chain s t (err x, u) g o = Frame-trans s t u [] [] g o
    chain s t (ok b, u) g o = Frame-trans s t u [] [] g o

    go :
        (s : Store) (q : Result A × Store)
        → Opens no_handle s q
        → Opens no_handle s (continue q.0 f q.1)
    go s (err x, t) o = o
    go s (ok a, t) o = chain s t (f a t) o ((k a).at t (Frame-IsFresh s t [] o))

-- An expression that is opened, used and closed again.
used-Opening :
    {A : Type 0} (m : Action Expr) (f : Expr → Action A)
    → Opening one m
    → ((e : Expr) → Opening no_handle (f e))
    → Opening no_handle (m >>= λ e. finally (f e) (close e))
unfolding close_all
used-Opening {A} m f h k = record { at = λ s g. go s (m s) (h.at s g) }
  where
    go :
        (s : Store) (q : Result Expr × Store)
        → Opens one s q
        → Opens no_handle s (continue q.0 (λ e. finally (f e) (close e)) q.1)
    go s (err x, t) o = o
    go s (ok e, t) o = finally_close (e ∷ []) (f e) s t o (k e)

text-Opening : (e : Expr) → Opening no_handle (exact_text e >>= λ t. pure (t ∷ []))
unfolding exact_text
text-Opening e = record {
  at = λ s h. elim (Bool-cases (s.live e.id)) [
    | inl is_live ↦ rw is_live (Frame-refl s h)
    | inr is_closed ↦ rw is_closed (Frame-refl s h)
  ];
}

text_at-Opening : (e : Expr) (i : ℕ) → Opening no_handle (text_at e i)
unfolding text_at
text_at-Opening e i =
    used-Opening (argument e i) (λ x. exact_text x >>= λ t. pure (t ∷ [])) (argument-Opening e i)
      text-Opening

texts-Opening :
    (f : ℕ → Action (List String)) (l : List ℕ)
    → ((i : ℕ) → Opening no_handle (f i))
    → Opening no_handle (texts f l)
unfolding texts
texts-Opening f [] k = pure-Opening []
texts-Opening f (i ∷ l) k =
    Opening-then (f i) (λ first. texts f l >>= λ rest. pure (first ++ rest)) (k i)
      (λ first.
        Opening-then (texts f l) (λ rest. pure (first ++ rest)) (texts-Opening f l k)
          (λ rest. pure-Opening (first ++ rest)))

row_texts-Opening : (cols : ℕ) (e : Expr) (i : ℕ) → Opening no_handle (row_texts cols e i)
unfolding row_texts
row_texts-Opening cols e i =
    used-Opening (argument e i) (λ r. texts (text_at r) (count_up 0 cols)) (argument-Opening e i)
      (λ r. texts-Opening (text_at r) (count_up 0 cols) (text_at-Opening r))

all_texts-Opening : (m : Matrix) (e : Expr) → Opening no_handle (all_texts m e)
unfolding all_texts
all_texts-Opening m e = elim (Bool-cases m.column) [
  | inl is_column ↦ rw is_column (texts-Opening (text_at e) (count_up 0 m.rows) (text_at-Opening e))
  | inr is_nested ↦
      rw is_nested
        (texts-Opening (row_texts m.cols e) (count_up 0 m.rows) (row_texts-Opening m.cols e))
]

new_key-Opening : (native : Native) (m : Matrix) → Opening no_handle (new_key native m)
unfolding new_key
new_key-Opening native m =
    used-Opening (simplify native m.expression) (all_texts m) (simplify-Opening native m.expression)
      (all_texts-Opening m)

keep_key-Frame :
    (s : Store) (q : Result (List String) × Store)
    → Opens no_handle s q
    → Frame s (keep_key q).1.1 []
keep_key-Frame s (err x, t) o = o
keep_key-Frame s (ok values, t) o = o

entry_equality_key-Frame :
    (native : Native) (m : Matrix) (k : KeyAttribute) (s : Store)
    → IsFresh s
    → Frame s (entry_equality_key native m k s).1.1 []
unfolding entry_equality_key
entry_equality_key-Frame native m missing s h = Frame-refl s h
entry_equality_key-Frame native m (kept values) s h = Frame-refl s h
entry_equality_key-Frame native m unset s h =
    keep_key-Frame s (new_key native m s) ((new_key-Opening native m).at s h)

compare_keys-Frame :
    (s t : Store) (left : List String) (k : KeyAttribute)
    (q : Result (List String) × (KeyAttribute × Store))
    → Frame s t []
    → Frame t q.1.1 []
    → Frame s (compare_keys left k q).1.1 []
compare_keys-Frame s t left k (err x, (l, u)) f g = Frame-trans s t u [] [] f g
compare_keys-Frame s t left k (ok right, (l, u)) f g = Frame-trans s t u [] [] f g

compare_right-Frame :
    (native : Native) (b : Matrix) (l : KeyAttribute) (s : Store)
    (q : Result (List String) × (KeyAttribute × Store))
    → Frame s q.1.1 []
    → Frame s (compare_right native b l q).1.1 []
compare_right-Frame native b l s (err x, (k, t)) f = f
compare_right-Frame native b l s (ok left, (k, t)) f =
    compare_keys-Frame s t left k (entry_equality_key native b l t) f
      (entry_equality_key-Frame native b l t (Frame-IsFresh s t [] f))

-- While no derivation is recorded, a comparison of two matrices whose expressions keep no simplified
-- result leaves every handle as it was, whatever it returns or raises.
pub matrix_equal-Frame :
    (native : Native) (one_object one_arena : Bool) (a b : Matrix) (k l : KeyAttribute) (s : Store)
    → IsFresh s
    → Frame s (matrix_equal native one_object one_arena a b k l s).1.1 []
unfolding matrix_equal
matrix_equal-Frame native true one_arena a b k l s h = Frame-refl s h
matrix_equal-Frame native false one_arena a b k l s h =
    elim (Bool-cases (not (same_shape a b) || not one_arena)) [
      | inl differ ↦ rw differ (Frame-refl s h)
      | inr alike ↦ rw alike (
          compare_right-Frame native b l s (entry_equality_key native a k s)
            (entry_equality_key-Frame native a k s h))
    ]

compare_right-missing :
    (native : Native) (b : Matrix) (q : Result (List String) × (KeyAttribute × Store))
    → (x : Error) × ((compare_right native b missing q).0 ≡ err x)
unfolding entry_equality_key
compare_right-missing native b (err x, (k, t)) = (x, refl)
compare_right-missing native b (ok left, (k, t)) = (attribute_error, refl)

IsMissing : Matrix → Type 0
IsMissing m = m.key ≡ missing

sized-IsMissing :
    (m : Action Expr) (rows cols : ℕ)
    → Gives IsMissing (m >>= λ e. pure (from_expression e rows cols))
unfolding IsMissing
sized-IsMissing m rows cols =
    Gives-bind {Q = λ e. Unit} m (λ e. pure (from_expression e rows cols)) (any_result m)
      (λ e h. Gives-pure (from_expression e rows cols) refl)

matrix_slice-IsMissing :
    (native : Native) (m : Matrix) (rows columns : List ℕ)
    → Gives IsMissing (matrix_slice native m rows columns)
unfolding matrix_slice
matrix_slice-IsMissing native m rows columns =
    Gives-bind {Q = λ e. Unit} (each (slice_row native m columns) rows []) _
      (any_result (each (slice_row native m columns) rows []))
      (λ es h.
        sized-IsMissing (finally (function native "List" es) (close_all es)) (length rows)
          (length columns))

-- `_from_expression` leaves the attribute out of the matrix that is returned.
minor_submatrix-IsMissing :
    (native : Native) (m : Matrix) (i j : ℤ) → Gives IsMissing (minor_submatrix native m i j)
unfolding minor_submatrix
minor_submatrix-IsMissing native m i j =
    Gives-bind {Q = λ r. Unit} (lift (matrix_index i m.rows)) _
      (any_result (lift (matrix_index i m.rows)))
      (λ row h.
        Gives-bind {Q = λ c. Unit} (lift (matrix_index j m.cols)) _
          (any_result (lift (matrix_index j m.cols)))
          (λ column g.
            Gives-if (nat_beq m.rows 1 || nat_beq m.cols 1) _ _ (λ e. Gives-raise unsupported)
              (λ e. matrix_slice-IsMissing native m (others m.rows row) (others m.cols column))))

-- A matrix that `minor_submatrix` returns cannot be compared with another matrix of its shape and
-- arena, on either side, whatever the entries are: on the left it raises an `AttributeError`, since
-- the matrix has no attribute `_equality_key`, and on the right it raises too.
pub matrix_equal_raises :
    (native : Native) (m a b : Matrix) (i j : ℤ) (s t : Store)
    → (minor_submatrix native m i j s).0 ≡ ok a
    → same_shape a b ≡ true
    → ((matrix_equal native false true a b a.key b.key t).0 ≡ err attribute_error)
      × ((x : Error) × ((matrix_equal native false true b a b.key a.key t).0 ≡ err x))
unfolding matrix_equal IsMissing
matrix_equal_raises native m a b i j s t made alike =
    let key : a.key ≡ missing = rw made at ((minor_submatrix-IsMissing native m i j).at s) in
    let turned : same_shape b a ≡ true = ground arith in
    (
      rw (key, alike) (unfold entry_equality_key in refl),
      rw (key, turned) (compare_right-missing native a (entry_equality_key native b b.key t)),
    )
