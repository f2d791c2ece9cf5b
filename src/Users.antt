-- ===== src/Users.antt =====
-- src/modules/users.
pub mod Model
pub mod Service
pub mod Lookups
