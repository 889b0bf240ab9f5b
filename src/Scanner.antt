-- ===== src/Scanner.antt =====
-- apps/gateway/internal/scanner: the limit on parallel probes and the retries of one host.
pub mod Limiter
pub mod Retries
pub mod Attempts
pub mod Pool
