-- ===== src/Assumptions.antt =====
-- Assumptions of an arena, their scopes, and the answers that Python objects keep while the
-- assumptions stay the same: `Arena.assume`, `assume_relation`, `_assumption_push`,
-- `_assumption_pop` and `_AssumptionScope` of python/fortsym/__init__.py, and the predicates
-- of `Matrix` in python/fortsym/sympy/__init__.py.
mod Changes
mod Answers
pub mod Coherence
pub mod Runs
pub mod Scopes
unfoldable pub use Changes.*
unfoldable pub use Answers.*
