-- ===== src/Auth.antt =====
-- monitor-v2/web/auth.py: the lockout after failed logins, and the sessions in memory.
pub mod Limiter
pub mod Sessions
