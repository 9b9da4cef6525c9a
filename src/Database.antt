-- ===== src/Database.antt =====
-- Package database.
pub mod Tx
pub mod Fields
pub mod Columns
