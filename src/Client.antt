-- ===== src/Client.antt =====
-- providers/lib/client: the HTTP client with retries.
pub mod Retry
pub mod Recovers
