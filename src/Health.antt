-- ===== src/Health.antt =====
-- src/modules/health.
pub mod Service
pub mod Routes
pub mod Answers
