-- ===== src/Payments.antt =====
-- Payments (app/modules/payments).
pub mod Tables
pub mod Guarantee
pub mod Refunds
pub mod Covered
pub mod Whole
pub mod Capture
