-- ===== src/Delivery.antt =====
-- monitor-v2/remote_probe: the upload of queued probe results (delivery.py over spool.py's queue).
pub mod Response
pub mod Queue
pub mod Drain
