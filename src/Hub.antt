-- ===== src/Hub.antt =====
-- internal/hub: live connections, their attachment to games, and the client actions.
pub mod Conn
pub mod Defs
pub mod Support
pub mod Actions
pub mod Dispatch
pub mod Expiry
pub mod Locks
pub mod Counted
pub mod Exclusion
pub mod Reply
pub mod Answer
pub mod Once
pub mod Operations
pub mod Served
pub mod Queues
pub mod Queue
pub mod Secrecy
pub mod Attach
pub mod Follows
pub mod Steps
pub mod Keeps
pub mod Invariant
pub mod Outcome
pub mod Connect
pub mod Enter
pub mod Handle
pub mod Sweep
pub mod Life
pub mod Expired
pub mod Erased
pub mod Tests
mod Scenario
