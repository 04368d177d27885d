-- ===== src/Protocol.antt =====
-- crates/openlive-protocol: the wire types, and the binary media packet.
pub mod Capability
pub mod Interaction
pub mod Task
pub mod Event
pub mod Envelope
pub mod Media
