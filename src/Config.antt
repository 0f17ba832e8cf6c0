-- ===== src/Config.antt =====
-- internal/config: the configuration files of the server and of the client, from their bytes to
-- the settings that the programs run with.
pub mod Limits
pub mod Server
pub mod Client
