-- ===== src/Tls.antt =====
-- TLS (lib/tls).
pub mod SessionCache
pub mod Records12
