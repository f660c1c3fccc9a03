-- ===== src/Rules.antt =====
-- internal/rules/rules.go: the moves, the seats and the status machine of one game. A function that
-- returns `(State, error)` returns the pair, with `none` for a nil error.
pub mod Defs
pub mod Round
pub mod Machine
pub mod Invariant
pub mod Rematch
mod Tests
