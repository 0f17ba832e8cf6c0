-- ===== src/Proxy.antt =====
-- internal/proxy: the local SOCKS5 and HTTP listeners.
pub mod Socks
pub mod SocksUdp
pub mod Http
pub mod Pool
pub mod CompressedConn
