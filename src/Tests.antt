-- ===== src/Tests.antt =====
-- Concrete data, and the properties applied to it.
mod Hex
mod Node
mod Poi
mod Ledger
mod Milestone
mod Activity
mod Outputs
mod Migrations
mod Worker
mod Api
