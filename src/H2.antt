-- ===== src/H2.antt =====
-- HTTP/2 (lib/h2).
pub mod Frame
pub mod Hpack
pub mod Session
