-- ===== src/Auth.antt =====
-- backend/internal/auth and the rows it decides on: the second factor of an account.
pub mod Totp
pub mod SecondFactor
pub mod Sessions
pub mod Passwords
pub mod Tokens
pub mod Users
pub mod Audit
