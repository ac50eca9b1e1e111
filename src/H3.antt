-- ===== src/H3.antt =====
-- HTTP/3 and QUIC (lib/h3).
pub mod Varint
pub mod Huffman
pub mod Packet
pub mod Qpack
pub mod Client
pub mod TransportParams
