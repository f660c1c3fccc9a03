-- ===== src/Main.antt =====
-- cmd/rps-backend/main.go.
pub mod Defs
pub mod Health
pub mod Shutdown
pub mod Wiring
mod Tests
