-- ===== src/Time.antt =====
-- Go's package time as internal/store/store.go and internal/clock/clock.go use it: instants and their text.
pub mod Calendar
pub mod Format
pub mod Order
pub mod Sorting
pub mod Clock
pub mod Parse
pub mod Roundtrip
pub mod Tests
