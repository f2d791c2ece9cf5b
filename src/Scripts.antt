-- ===== src/Scripts.antt =====
-- scripts.
pub mod CreateAdmin
pub mod GenerateDevKeys
pub mod Keys
pub mod Admins
