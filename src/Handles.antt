-- ===== src/Handles.antt =====
-- The expression handles of python/fortsym/__init__.py: `Expr`, the operations of `Arena` that
-- make and read them, and the native library behind them as a parameter.
mod Nodes
mod State
mod Ops
pub mod Frame
pub use Nodes.*
pub use State.*
unfoldable pub use Ops.*
