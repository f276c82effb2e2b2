-- ===== src/Hpack/RoundTrip.antt =====
-- What the decoder makes of what the encoder writes.
pub mod Pieces
pub mod Dispatch
pub mod Headers
pub mod Field
pub mod Header
