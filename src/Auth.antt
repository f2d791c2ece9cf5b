-- ===== src/Auth.antt =====
-- src/modules/auth.
pub mod Model
pub mod Schemas
pub mod Service
pub mod Routes
pub mod Revoke
pub mod Issue
pub mod Refresh
pub mod Login
pub mod Success
pub mod Lockout
pub mod Reopening
pub mod Journey
pub mod Bodies
pub mod Password
pub mod Forgot
pub mod Logout
pub mod Registration
pub mod Families
