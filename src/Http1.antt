-- ===== src/Http1.antt =====
-- src/xzero/http/http1: the parser and the generator of HTTP/1 messages.
pub mod Chars
pub mod State
pub mod Parser
pub mod Numeral
pub mod Status
pub mod Generator
pub mod RoundTrip
