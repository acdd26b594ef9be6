-- ===== src/Architecture.antt =====
-- scripts/audit_module_architecture.py: the modules and their graph, its cycles, its layers, the verdict.
mod Modules
mod Search
mod Reports
mod Paths
mod States
mod Visits
mod Rounds
mod Ranks
pub mod Cycles
pub mod Unknown
pub mod Verdicts
unfoldable pub use Modules.*
unfoldable pub use Search.*
unfoldable pub use Reports.*
unfoldable pub use Paths.*
