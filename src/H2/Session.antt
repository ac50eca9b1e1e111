-- ===== src/H2/Session.antt =====
-- lib/h2/session.js. The state and the primitives stand in `State`, the frames that come in in
-- `Receive`, what goes out in `Send`; the other children prove.
pub mod State
pub mod Receive
pub mod Send
