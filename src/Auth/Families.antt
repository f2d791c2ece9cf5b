-- ===== src/Auth/Families.antt =====
-- The families of refresh tokens over any sequence of requests.
pub mod Active
pub mod History
pub mod Holder
pub mod Keeps
pub mod Insert
pub mod Parts
pub mod Logins
pub mod Rotations
pub mod Accounts
pub mod Requests
pub mod Routes
pub mod Courses
pub mod CourseRoutes
pub mod Accepted
pub mod Branches
pub mod Automaton
pub mod Reach
