-- ===== src/Migrations.antt =====
-- migrations/postgres/versions.
pub mod Ddl
pub mod Versions
pub mod RoundTrip
pub mod Environment
pub mod History
