-- ===== src/Auth/Refresh.antt =====
-- The rotation of refresh tokens: `refresh_tokens` of src/modules/auth/service.py.
pub mod Replay
pub mod Rotation
pub mod Race
