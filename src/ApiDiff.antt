-- ===== src/ApiDiff.antt =====
-- scripts/diff_sympy_api.py: the comparison of two API manifests. A record of a manifest is a value
-- of any type with an equality test; its key is a function of it.
mod Compare
pub mod Laws
unfoldable pub use Compare.*
