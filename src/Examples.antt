-- ===== src/Examples.antt =====
-- Small inputs: the theorems applied where their conditions hold.
pub mod Quality
pub mod Wire
pub mod Reader
pub mod Delivery
pub mod Monitor
pub mod Owner
pub mod Incident
