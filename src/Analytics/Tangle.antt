-- ===== src/Analytics/Tangle.antt =====
-- Statistics about the tangle: src/analytics/tangle.
pub mod BlockActivity
pub mod MilestoneSize
pub mod ProtocolParams
