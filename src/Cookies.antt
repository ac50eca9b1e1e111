-- ===== src/Cookies.antt =====
-- The cookie jar of lib/cookies.js.
pub mod Parse
pub mod Jar
