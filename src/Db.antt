-- ===== src/Db.antt =====
-- The tables of the database, and a database session over them.
pub mod Rows
pub mod Session
