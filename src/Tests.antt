-- ===== src/Tests.antt =====
-- Fixtures, and the theorems at concrete inputs.
pub mod Fixtures
pub mod Handling
pub mod Framing
pub mod Looping
pub mod Conversation
pub mod Tasks
pub mod Serving
pub mod Opening
pub mod Echoing
pub mod Sharing
pub mod Buffers
