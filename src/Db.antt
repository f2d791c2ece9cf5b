-- ===== src/Db.antt =====
-- src/db.
pub mod Postgres
pub mod Transactions
pub mod Process
