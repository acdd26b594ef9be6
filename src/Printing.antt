-- ===== src/Printing.antt =====
-- The printing of expanded sums in python/fortsym/__init__.py: `_split_top_level` and
-- `_pretty_expanded`.
mod Split
pub mod Laws
pub mod Reordering
unfoldable pub use Split.*
