-- ===== src/Store.antt =====
-- The store: src/store/mod.rs and src/store/postgres.rs over the schema of migrations/.
pub mod Table
pub mod Db
pub mod Postgres
