-- ===== src/Client.antt =====
-- The HTTP client (lib/client.js): the responses of HTTP/1.1, redirects and retries.
pub mod Response
pub mod Redirect
pub mod Retry
mod Runs
