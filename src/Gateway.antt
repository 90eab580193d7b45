-- ===== src/Gateway.antt =====
-- The Hive gateway: packages/hive-gateway/src.
pub mod Json
pub mod Library
pub mod Protocol
pub mod Contracts
pub mod Policy
pub mod Signature
pub mod Signer
pub mod Tests
pub mod Send
