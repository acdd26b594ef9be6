-- ===== src/Boolean.antt =====
-- The Boolean functions of python/fortsym/sympy/__init__.py: `And`, `Or`, `Not`, `Xor`, `Implies`
-- and `Equivalent`, with the handles that they open and close.
mod Values
pub mod Results
mod Functions
pub mod Ownership
pub mod Truth
pub mod Refinement
pub mod Connectives
unfoldable pub use Values.*
unfoldable pub use Functions.*
