-- ===== src/Core.antt =====
-- src/core.
pub mod Errors
pub mod Security
pub mod Jwks
pub mod KeyNumbers
pub mod PublishedKey
pub mod Logging
pub mod Loggers
pub mod LogSetup
pub mod Response
pub mod Dependencies
pub mod Handlers
pub mod Statuses
pub mod Access
pub mod Requests
pub mod Discovery
pub mod Validation
pub mod Middleware
pub mod ServerErrors
pub mod Router
