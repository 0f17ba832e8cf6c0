-- ===== src/Examples.antt =====
-- The theorems at concrete inputs, where their hypotheses hold.
pub mod Values
mod Protocol
mod Acl
mod Tunnel
mod Streams
mod Sessions
mod Connections
mod Http
