-- ===== src/Gate.antt =====
-- src/durable_open_gate.rs: a gate that grants an open at most once in a window, and keeps its lock in
-- a database. The children below hold its types, what it uses of other crates, and its methods.
pub mod Types
pub mod Outside
pub mod Open
pub mod Acquire
pub mod Shared
pub mod Spacing
pub mod Lawful
pub mod Locks
pub mod Holding
pub mod Exclusion
pub mod Stored
pub mod Abstract
pub mod Refinement
pub mod Restore
pub mod Restart
pub mod Counters
pub mod Faults
pub mod Sharing
pub mod Health
