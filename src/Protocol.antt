-- ===== src/Protocol.antt =====
-- protocol/: the wire format that every component speaks.
pub mod MessageType
pub mod Framing
pub mod Examples
