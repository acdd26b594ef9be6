-- ===== src/Classification.antt =====
-- scripts/classify_sympy_api.py: the layers of every name of an inventory. A set of names is a list.
mod Layers
mod Reports
pub mod Coverage
pub mod Rows
unfoldable pub use Layers.*
unfoldable pub use Reports.*
