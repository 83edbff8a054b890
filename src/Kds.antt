-- ===== src/Kds.antt =====
-- Kitchen screens and the remotes that are paired with them (app/modules/kds).
pub mod Tables
pub mod Pairing
pub mod Remotes
pub mod Requests
pub mod OneUsable
pub mod Draws
pub mod Paired
pub mod Revoked
