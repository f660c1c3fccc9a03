-- ===== src/Server.antt =====
-- The server as a whole: what the hub, the sweeper and the HTTP handlers do to the table of games.
pub mod Rows
pub mod Posts
pub mod Runs
pub mod History
pub mod Sound
pub mod Descent
pub mod Tests
