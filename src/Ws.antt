-- ===== src/Ws.antt =====
-- internal/ws/ws.go: the transport of one connection, between the WebSocket library and the hub.
pub mod Writer
pub mod Queued
pub mod Order
pub mod Delivery
pub mod Origins
pub mod Reader
pub mod Session
pub mod Group
mod Tests
