-- ===== src/Protocol.antt =====
-- rust/dynamod-common/src/protocol.rs: the messages between the programs and their framing.
pub mod Message
pub mod Framing
mod Tests
