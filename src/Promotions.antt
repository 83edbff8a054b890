-- ===== src/Promotions.antt =====
-- Promotional codes (app/modules/promotions).
pub mod Tables
pub mod Discounts
pub mod Service
pub mod Admin
pub mod Requests
pub mod Totals
pub mod Counter
pub mod Quota
