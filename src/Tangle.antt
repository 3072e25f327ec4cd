-- ===== src/Tangle.antt =====
-- The tangle as a sequence of milestones: src/tangle.
pub mod LedgerUpdates
pub mod Sources
pub mod Inx
pub mod MongoDb
pub mod Requests
pub mod Memory
