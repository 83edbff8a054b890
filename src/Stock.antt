-- ===== src/Stock.antt =====
-- Ingredient stock (app/modules/stock).
pub mod Tables
pub mod Movements
pub mod RoundTrip
pub mod Sufficient
