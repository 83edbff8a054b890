-- ===== src/Orders.antt =====
-- Orders (app/modules/orders/service.py).
pub mod Status
pub mod Tables
pub mod Update
pub mod AfterCommit
pub mod Service
pub mod Keeps
pub mod Parts
pub mod Sync
pub mod Transitions
pub mod Stays
pub mod Funded
pub mod Routes
pub mod Lawful
pub mod Restock
pub mod Queue
pub mod Preparation
pub mod Stations
pub mod Customer
