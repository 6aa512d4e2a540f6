-- ===== src/Accounts.antt =====
-- Accounts: tokens and passwords, login, sessions, roles and permissions.
mod Tokens
mod Login
mod Sessions
mod Permissions
mod Roles
pub mod Lockout
pub mod SessionPaths
pub mod Revoked
pub mod Credentials
pub mod RoleSync
pub mod RolePaths
pub mod Access
pub mod Granted
unfoldable pub use Tokens.*
unfoldable pub use Login.*
unfoldable pub use Sessions.*
unfoldable pub use Permissions.*
unfoldable pub use Roles.*
