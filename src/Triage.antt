-- ===== src/Triage.antt =====
-- scripts/nightly_triage.py: the lists of shards that its commands pass on as texts.
mod Shards
mod Decimals
mod Lists
pub mod Passing
unfoldable pub use Shards.*
