-- ===== src/Api.antt =====
-- internal/httpapi/httpapi.go: the REST endpoints.
pub mod Names
pub mod Defs
pub mod Routes
pub mod Players
pub mod Games
pub mod Login
pub mod Usernames
pub mod Cors
pub mod Tests
