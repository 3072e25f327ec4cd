-- ===== src/Db.antt =====
-- The database: src/db/mongodb/collections.
pub mod Collections
pub mod ApplicationState
pub mod Outputs
pub mod Documents
