-- ===== src/Connect.antt =====
-- net/connect/connect.go: one connection, with the buffers that its bytes go through.
pub mod Buffers
pub mod State
pub mod Methods
pub mod Codecs
pub mod Shared
pub mod Address
pub mod Lifecycle
