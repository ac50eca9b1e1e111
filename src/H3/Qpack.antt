-- ===== src/H3/Qpack.antt =====
-- lib/h3/qpack.js: QPACK, by the names of its parts.
pub mod Static
pub mod Integers
pub mod Table
pub mod Encode
pub mod Decode
pub mod Dynamic
pub mod RoundTrip
pub mod Instructions
mod Runs
