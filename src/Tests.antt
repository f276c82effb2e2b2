-- ===== src/Tests.antt =====
-- Runs at concrete inputs.
mod Framing
mod Frames
mod Servers
mod Texts
mod Leaders
mod Balancing
mod Clusters
mod Headers
mod Numbers
mod Requests
mod Tokens
