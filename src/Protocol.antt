-- ===== src/Protocol.antt =====
-- net/protocol: the vocabulary that the other packages share, and the codecs.
pub mod Errors
pub mod Atomic
pub mod Conn
pub mod ByteOrder
pub mod EventType
pub mod Codec
pub mod LengthField
pub mod Framing
pub mod Options
