-- ===== src/Proto.antt =====
-- sanzu-common/src/proto.rs: framed messages on a stream, and the messages that relay errors.
pub mod Stream
pub mod Tunnel
pub mod Events
pub mod Framing
pub mod Limits
pub mod Shrinks
pub mod Frames
pub mod Relay
