-- ===== src/Model.antt =====
-- The data that the program keeps: src/model.
pub mod Address
pub mod Output
pub mod Ledger
pub mod Milestone
pub mod Block
pub mod Metadata
pub mod Protocol
