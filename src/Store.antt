-- ===== src/Store.antt =====
-- internal/store: the players and games that the program keeps in SQLite.
pub mod Defs
pub mod Tx
pub mod Players
pub mod Free
pub mod Create
pub mod Adds
pub mod Save
pub mod Hosted
pub mod Reads
pub mod Columns
pub mod Open
pub mod Opened
pub mod Ids
pub mod Tests
