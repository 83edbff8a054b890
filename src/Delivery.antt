-- ===== src/Delivery.antt =====
-- Deliveries (app/modules/delivery).
pub mod Tables
pub mod Lifecycle
pub mod OneLive
pub mod Rules
pub mod Proof
pub mod Attempts
pub mod Assign
pub mod Claim
pub mod Arrive
pub mod Fleet
pub mod Takes
pub mod Capacity
pub mod Courier
pub mod Report
pub mod Stages
pub mod HandOver
pub mod Ends
pub mod Reachable
pub mod Waited
pub mod Resolve
pub mod Resolved
pub mod Retained
pub mod Untouched
