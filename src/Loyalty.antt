-- ===== src/Loyalty.antt =====
-- Loyalty points (app/modules/loyalty/account).
pub mod Ledger
pub mod Account
pub mod Sound
pub mod Requests
pub mod Reservations
