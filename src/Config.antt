-- ===== src/Config.antt =====
-- internal/config/config.go: the settings of the server.
pub mod Origins
pub mod Defs
pub mod Laws
pub mod Tests
