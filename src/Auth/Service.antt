-- ===== src/Auth/Service.antt =====
-- src/modules/auth/service.py.
mod Tokens
mod Sessions
mod Accounts
unfoldable pub use Tokens.*
unfoldable pub use Sessions.*
unfoldable pub use Accounts.*
