-- ===== src/Hpack.antt =====
-- src/xzero/http/hpack: header compression.
pub mod Table
pub mod Static
pub mod Integer
pub mod Parser
pub mod Generator
pub mod RoundTrip
