-- ===== src/Hr.antt =====
-- Human resources (app/modules/hr).
pub mod Tables
pub mod Clock
pub mod OneOpen
pub mod Overlap
pub mod Lateness
