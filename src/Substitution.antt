-- ===== src/Substitution.antt =====
-- `subs` of python/fortsym/sympy/__init__.py on a mapping: when the keys are replaced one after the
-- other, when all at once, and what an expression keeps of it.
mod Replace
mod Guard
mod Kept
mod Sequence
pub mod Cascade
pub mod Answers
pub mod Ownership
unfoldable pub use Replace.*
unfoldable pub use Guard.*
unfoldable pub use Sequence.*
unfoldable pub use Kept.*
