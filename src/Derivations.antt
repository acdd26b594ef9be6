-- ===== src/Derivations.antt =====
-- The sessions of python/fortsym/derivation.py: `Derivation` as a context manager, and its export.
mod Session
pub mod Blocks
pub mod Artifacts
unfoldable pub use Session.*
