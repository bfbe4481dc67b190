-- ===== src/InFlight.antt =====
-- src/in_flight.rs: the table of requests in flight, and the helper that carries a permit.
pub mod Waiters
pub mod Heap
pub mod Table
pub mod Carrier
pub mod Fleet
pub mod Refinement
pub mod Waiting
pub mod Compaction
pub mod Order
pub mod Expiry
pub mod Indexed
pub mod Requests
pub mod Genuine
pub mod Numbering
pub mod Exact
pub mod Capacity
