-- ===== src/Message.antt =====
-- The messages after the handshake, of encoding_types.go and messages_aten.go.
pub mod ToServer
pub mod ToClient
pub mod Aten
pub mod Update
pub mod Outgoing
