-- ===== src/Gateway/Protocol.antt =====
-- The event protocol: packages/hive-gateway/src/protocol.
pub mod Event
pub mod Text
pub mod Check
pub mod Codec
