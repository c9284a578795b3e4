-- ===== src/Quality.antt =====
-- tools/quality_failover: the failover policy of a desktop client.
pub mod Policy
pub mod NodePath
pub mod Engine
pub mod Ownership
