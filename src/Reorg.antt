-- ===== src/Reorg.antt =====
-- Reorganisations of the chain: src/reorg/mod.rs, detect.rs and rollback.rs.
pub mod Detect
pub mod Rollback
