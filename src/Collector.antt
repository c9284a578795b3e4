-- ===== src/Collector.antt =====
-- monitor-v2/collector.py: the accounting of connections, from the events of the sing-box API.
pub mod Signed
pub mod Tracker
pub mod Events
pub mod Batches
pub mod Once
pub mod Steps
pub mod Apart
pub mod Final
pub mod Drift
