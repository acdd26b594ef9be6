-- ===== src/Tests/Grids.antt =====
-- The theorems on matrices at a matrix of one row and two columns.
use fortsym.Base.{
  ℕ, ◌<◌, ◌≡◌, refl, ◌↔◌, ◌⊎◌, true, false, List, [], ◌∷◌, Error, ok, err, attribute_error,
  index_error, nat_eq,
}
use fortsym.Base.Int.{ℤ, pos, negsuc, ◌+ℤ◌}
use fortsym.Handles.{Term, symbol, func, from_list, new_handle}
use fortsym.Handles.Frame.{ids, Frame}
use fortsym.Boolean.Ownership.{Opens}
use fortsym.Boolean.Ownership.Opening.{one}
use fortsym.Matrices.{
  Matrix, matrix_index, entry, flat_slice, minor_submatrix, missing, unset, matrix_equal,
}
use fortsym.Matrices.Bounds.{matrix_index_iff}
use fortsym.Matrices.Entries.{entry-Opens, of_matrix}
use fortsym.Matrices.Comparison.{matrix_equal-Frame, matrix_equal_raises}
use fortsym.Tests.Booleans.{free, nothing, one_open, one_open-IsFresh}

abbrev row_term : Term
row_term = func "List" (from_list (func "List" (from_list (symbol "a" ∷ symbol "b" ∷ [])) ∷ []))

abbrev row : Matrix
row = record {
  expression = new_handle row_term nothing;
  rows = 1;
  cols = 2;
  column = false;
  key = unset;
}

matrix_index_iff_example :
    ((matrix_index (negsuc 0) 3 ≡ ok 2)
      ↔ ((2 < 3) × ((negsuc 0 ≡ pos 2) ⊎ (pos 2 ≡ negsuc 0 +ℤ pos 3))))
    × ((matrix_index (negsuc 0) 3 ≡ err index_error)
        ⊎ ((k : ℕ) × (matrix_index (negsuc 0) 3 ≡ ok k)))
matrix_index_iff_example = matrix_index_iff (negsuc 0) 3 2

last_accepted : matrix_index (negsuc 0) 3 ≡ ok 2
unfolding matrix_index
last_accepted = refl

entry-Opens_example :
    ((r column : ℕ) → Opens one one_open (entry row r column one_open))
    × ((indices : List ℕ) → Opens ids one_open (flat_slice row indices one_open))
    × ((i j : ℤ) → Opens of_matrix one_open (minor_submatrix free row i j one_open))
entry-Opens_example = entry-Opens free row one_open one_open-IsFresh

matrix_equal-Frame_example :
    Frame one_open (matrix_equal free false true row row unset unset one_open).1.1 []
matrix_equal-Frame_example =
    matrix_equal-Frame free false true row row unset unset one_open one_open-IsFresh

abbrev square_term : Term
square_term = func "List" (
    from_list (
      func "List" (from_list (symbol "a" ∷ symbol "b" ∷ []))
      ∷ func "List" (from_list (symbol "c" ∷ symbol "d" ∷ []))
      ∷ []))

abbrev square : Matrix
square = record {
  expression = record { id = 0; term = square_term };
  rows = 2;
  cols = 2;
  column = false;
  key = unset;
}

-- The matrix of one entry that is left without the first row and the first column.
abbrev corner : Matrix
corner = record {
  expression = record {
    id = 4;
    term = func "List" (from_list (func "List" (from_list (symbol "d" ∷ [])) ∷ []));
  };
  rows = 1;
  cols = 1;
  column = false;
  key = missing;
}

corner_made : (minor_submatrix free square (pos 0) (pos 0) one_open).0 ≡ ok corner
unfolding minor_submatrix
corner_made = refl

matrix_equal_raises_example :
    ((matrix_equal free false true corner corner missing missing one_open).0 ≡ err attribute_error)
    × ((x : Error) × ((matrix_equal free false true corner corner missing missing one_open).0
          ≡ err x))
matrix_equal_raises_example =
    matrix_equal_raises free square corner corner (pos 0) (pos 0) one_open one_open corner_made refl
