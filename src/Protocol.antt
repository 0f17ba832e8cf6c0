-- ===== src/Protocol.antt =====
-- internal/protocol: the wire format of the tunnel.
pub mod Address
pub mod Varint
pub mod Frame
pub mod Datagram
