-- ===== src/Pool.antt =====
-- The connection pool (lib/pool.js).
pub mod Slots
