-- ===== src/Tunnel.antt =====
-- internal/tunnel: authentication of the two ends, the credentials of the server, and the settings of QUIC.
pub mod Auth
pub mod Credentials
pub mod Quic
