-- ===== src/Http1/RoundTrip.antt =====
-- src/xzero/http/http1: what the generator writes and the parser reads of it.
pub mod Leads
pub mod Line
pub mod Header
pub mod Decimal
pub mod Head
pub mod Finish
pub mod Written
pub mod Sized
pub mod Hexadecimal
pub mod Chunk
pub mod Chunked
