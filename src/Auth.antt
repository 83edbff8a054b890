-- ===== src/Auth.antt =====
-- Accounts and their sessions (app/modules/auth).
pub mod Tables
pub mod Mfa
pub mod Sessions
pub mod Passwords
pub mod Requests
pub mod Kept
pub mod Spent
pub mod Rotation
pub mod Login
