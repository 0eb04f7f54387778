-- ===== src/Auth.antt =====
-- Accounts, login limits and refresh tokens: app/service/auth.py.
pub mod State
pub mod Limit
pub mod Sessions
pub mod Login
pub mod Calls
pub mod Origin
mod Window
mod Revoked
mod Replayed
mod Tests
