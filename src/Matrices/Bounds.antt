-- ===== src/Matrices/Bounds.antt =====
-- Which indices a matrix accepts.
use fortsym.Base.{ℕ, ◌<◌, ◌≡◌, ◌↔◌, ◌⊎◌, ok, err, index_error, nat_eq, arith}
use fortsym.Base.Int.{ℤ, pos, negsuc, ◌+ℤ◌}
use fortsym.Matrices.Indexing.{matrix_index}

-- `_matrix_index` accepts exactly the indices from -size to size - 1, as Python's sequences do: one
-- that is not negative is itself, and -k is size - k; any other index raises an `IndexError`.
pub matrix_index_iff :
    (i : ℤ) (size n : ℕ)
    → ((matrix_index i size ≡ ok n) ↔ ((n < size) × ((i ≡ pos n) ⊎ (pos n ≡ i +ℤ pos size))))
      × ((matrix_index i size ≡ err index_error) ⊎ ((k : ℕ) × (matrix_index i size ≡ ok k)))
unfolding matrix_index
matrix_index_iff (pos m) size n = ground arith
matrix_index_iff (negsuc m) size n = ground arith
