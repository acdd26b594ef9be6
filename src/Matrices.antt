-- ===== src/Matrices.antt =====
-- The entries, slices and submatrices of `Matrix` in python/fortsym/sympy/__init__.py.
mod Expressions
mod Indexing
mod Equality
pub mod Bounds
pub mod Entries
pub mod Comparison
unfoldable pub use Expressions.*
unfoldable pub use Indexing.*
unfoldable pub use Equality.*
