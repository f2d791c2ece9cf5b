-- ===== src/Courses.antt =====
-- src/modules/courses.
pub mod Model
pub mod Schemas
pub mod Service
pub mod Routes
pub mod Changes
pub mod Creation
pub mod Order
pub mod Pages
pub mod Bounds
