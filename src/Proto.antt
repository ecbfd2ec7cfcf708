-- ===== src/Proto.antt =====
-- The wire format of src/proto.rs: one module for each message, and `Message` for what a payload is
-- decoded to.
pub mod MessageType
pub mod Base
pub mod Time
pub mod WireChunk
pub mod Codec
pub mod Settings
pub mod Hello
pub mod Message
