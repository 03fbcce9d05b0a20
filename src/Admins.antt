-- ===== src/Admins.antt =====
-- packages/python/platform_core/admin_auth.py, login_limits.py and admin_bootstrap.py: the accounts,
-- sessions and permissions of administrators, and the limits on their logins.
mod Accounts
mod Logins
pub mod Sessions
pub mod Counters
pub mod Limits
unfoldable pub use Accounts.*
unfoldable pub use Logins.*
