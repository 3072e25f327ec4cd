-- ===== src/Poi.antt =====
-- Proofs of inclusion: src/bin/inx-chronicle/api/poi.
pub mod Hasher
pub mod Proof
pub mod Keys
pub mod Dto
pub mod Routes
