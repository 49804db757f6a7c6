-- ===== src/Dds.antt =====
-- src/dds: the DDS side of the bridge.
pub mod Errors
pub mod QosHandle
pub mod Sertype
pub mod Api
pub mod Participant
pub mod Writer
pub mod Reader
pub mod Readers
