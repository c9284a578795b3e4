-- ===== src/Reader.antt =====
-- monitor-v2/journal_reader: the reader's durable state, its commit protocol and its recovery.
pub mod Cursor
pub mod State
pub mod Retention
pub mod Disk
