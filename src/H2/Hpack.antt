-- ===== src/H2/Hpack.antt =====
-- lib/h2/hpack.js: the HPACK encoder and decoder. The children hold the static and the dynamic
-- table and the prefixed integers. A buffer stands for what is left of it from the offset on: a
-- slice past the end is empty there, as in the source.
mod Static
pub mod Table
pub mod Integers
pub mod Strings
pub mod Codec
