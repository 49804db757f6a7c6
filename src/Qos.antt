-- ===== src/Qos.antt =====
-- src/qos.rs: the QoS policies of the protocol, their binary form and their normal form.
pub mod Policy
pub mod Valid
pub mod Normalize
pub mod Codec
pub mod RoundTrip
pub mod Sound
