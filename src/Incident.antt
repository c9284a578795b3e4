-- ===== src/Incident.antt =====
-- monitor-v2/web: the incident classifier, the store of incident windows and the scanner.
pub mod Vocabulary
pub mod Bundle
pub mod Stats
pub mod Anomaly
pub mod Verdict
pub mod Accept
pub mod Detect
pub mod Bits
pub mod Store
pub mod Transactions
pub mod Writes
pub mod Stage
pub mod Gates
pub mod Scanner
pub mod Startup
pub mod Lifecycle
