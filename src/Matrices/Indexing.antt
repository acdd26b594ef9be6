-- ===== src/Matrices/Indexing.antt =====
-- Indices, entries and slices of a matrix.
use fortsym.Base.{
  Bool, ℕ, ◌*◌, ◌/◌, ◌%◌, false, not, ◌||◌, List, [], keep, length, Option, Result, ok, err,
  index_error, unsupported, nat_eq, ltb, nat_beq, if◌then◌else◌,
}
use fortsym.Base.Int.{ℤ, pos, negsuc, ◌+ℤ◌, ltb_ℤ, int_eq}
use fortsym.Handles.{
  Native, Expr, Action, pure, raise, lift, ◌>>=◌, finally, close, close_all, function,
}
use fortsym.Matrices.Expressions.{missing, Matrix, argument, each, count_up}

-- A Python index: an integer, or a slice of which each part may be left out.
pub data Key : Type 0 where
  at : ℤ → Key
  slice : Option ℤ → Option ℤ → Option ℤ → Key

abbrev pub in_range : ℤ → ℕ → Result ℕ
in_range (pos n) size = if ltb n size then ok n else err index_error
in_range (negsuc n) size = err index_error

-- `_matrix_index`
unfoldable pub matrix_index : ℤ → ℕ → Result ℕ
matrix_index i size = in_range (if ltb_ℤ i (pos 0) then i +ℤ pos size else i) size

-- `_flat_index`
unfoldable pub flat_index : Matrix → ℤ → Result ℕ
flat_index m i =
    in_range (if ltb_ℤ i (pos 0) then i +ℤ pos (m.rows * m.cols) else i) (m.rows * m.cols)

-- `_entry`
unfoldable pub entry : Matrix → ℕ → ℕ → Action Expr
unfolding argument close
entry m row column =
    if m.column
    then (if not (nat_beq column 0) then raise index_error else argument m.expression row)
    else (argument m.expression row >>= λ r. finally (argument r column) (close r))

-- `_flat_entry`
unfoldable pub flat_entry : Matrix → ℕ → Action Expr
unfolding entry
flat_entry m i = entry m (i / m.cols) (i % m.cols)

-- `_flat_slice` behind `index.indices`.
unfoldable pub flat_slice : Matrix → List ℕ → Action (List Expr)
unfolding flat_entry each
flat_slice m indices = each (flat_entry m) indices []

-- A row of a slice.
unfoldable pub slice_row : Native → Matrix → List ℕ → ℕ → Action Expr
unfolding entry each function close_all
slice_row native m columns row = do
  entries ← each (entry m row) columns []
  finally (function native "List" entries) (close_all entries)

-- `_from_expression`
abbrev pub from_expression : Expr → ℕ → ℕ → Matrix
from_expression e rows cols = record {
  expression = e;
  rows = rows;
  cols = cols;
  column = false;
  key = missing;
}

-- `_matrix_slice`
unfoldable pub matrix_slice : Native → Matrix → List ℕ → List ℕ → Action Matrix
unfolding each slice_row function close_all
matrix_slice native m rows columns = do
  handles ← each (slice_row native m columns) rows []
  e ← finally (function native "List" handles) (close_all handles)
  pure (from_expression e (length rows) (length columns))

-- `tuple(index for index in range(size) if index != gone)`
abbrev pub others : ℕ → ℕ → List ℕ
others size gone = keep (λ i. not (nat_beq i gone)) (count_up 0 size)

-- `minor_submatrix`
unfoldable pub minor_submatrix : Native → Matrix → ℤ → ℤ → Action Matrix
unfolding matrix_index matrix_slice
minor_submatrix native m i j = do
  row ← lift (matrix_index i m.rows)
  column ← lift (matrix_index j m.cols)
  if nat_beq m.rows 1 || nat_beq m.cols 1
      then raise unsupported
      else matrix_slice native m (others m.rows row) (others m.cols column)

-- `__len__`
abbrev pub matrix_len : Matrix → ℕ
matrix_len m = m.rows * m.cols

abbrev pub is_square : Matrix → Bool
is_square m = nat_beq m.rows m.cols
