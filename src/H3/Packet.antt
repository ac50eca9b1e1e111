-- ===== src/H3/Packet.antt =====
-- The frame codec of lib/h3/packet.js: the encoders and `decodeFrames`.
pub mod Frames
pub mod Ends
pub mod Sendable
pub mod Written
pub mod RoundTrip
mod Runs
