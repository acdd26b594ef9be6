-- ===== src/Release.antt =====
-- The validators of the release metadata: scripts/check_sympy_api_differences.py,
-- scripts/check_api_naming_policy.py and, of scripts/check_release_profile.py, the checks that compare
-- the artifacts with each other. A table of an artifact is a record; a field that the code reads with
-- `get` may be absent, another one is there.
mod Sets
mod Policies
mod Profiles
pub mod Soundness
unfoldable pub use Sets.*
unfoldable pub use Policies.*
unfoldable pub use Profiles.*
