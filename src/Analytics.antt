-- ===== src/Analytics.antt =====
-- Statistics about the ledger and the tangle: src/analytics.
pub mod Counts
pub mod Update
pub mod Ledger
pub mod Milestone
pub mod Choices
pub mod Tangle
