-- ===== src/Protocol/RoundTrip.antt =====
-- The messages that the serializers write are read back by the parsers.
pub mod Parses
pub mod Requests
pub mod Replies
