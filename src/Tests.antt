-- ===== src/Tests.antt =====
-- The theorems at concrete inputs.
mod Declared
mod Booleans
mod Manifests
mod Sessions
mod Grids
mod Reports
mod Ledgers
mod Graphs
mod Prints
mod Substitutions
mod Recordings
mod Truths
mod Passed
