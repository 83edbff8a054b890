-- ===== src/Tests.antt =====
-- Runs and instances.
mod Loyalty
mod Orders
mod Delivery
mod Payments
mod Kitchen
mod Clock
mod Screens
mod Codes
mod Accounts
mod Failures
