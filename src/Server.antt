-- ===== src/Server.antt =====
-- net/server: a server with its loops and its pool of connections.
pub mod Pool
pub mod Names
pub mod Reference
pub mod Handling
pub mod Opening
