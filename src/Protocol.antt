-- ===== src/Protocol.antt =====
-- src/protocol.rs: the binary protocol between the clients and the bridge.
pub mod Errors
pub mod Reader
pub mod Keys
pub mod Codes
pub mod Header
pub mod Messages
pub mod Parse
pub mod Serialize
pub mod RoundTrip
pub mod Sound
