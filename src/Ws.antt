-- ===== src/Ws.antt =====
-- The WebSocket side: src/ws/session.rs and src/ws/server.rs.
pub mod Frame
pub mod Session
pub mod Server
pub mod Calls
