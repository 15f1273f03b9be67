-- ===== src/Db.antt =====
-- The database layer: src/db of the crate.
pub mod Bloom
