-- ===== src/Api.antt =====
-- The requests of the REST API: src/bin/inx-chronicle/api.
pub mod Numbers
pub mod Cursors
pub mod Pagination
