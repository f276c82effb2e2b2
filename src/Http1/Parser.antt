-- ===== src/Http1/Parser.antt =====
-- src/xzero/http/http1/Parser.cc: `parseFragment`.
pub mod Step
pub mod StartLine
pub mod Headers
pub mod Content
pub mod Loop
pub mod Progress
pub mod Ends
pub mod Keeps
pub mod Observe
pub mod Bulk
pub mod Splits
pub mod Fragments
pub mod Calls
