-- ===== src/Limiter.antt =====
-- src/limiter.rs: the limiter that owns a bucket for each key. A method with `&mut self` returns
-- the new limiter, behind its result where it has one; the children below hold the methods by what
-- they are for.
pub mod State
pub mod Update
pub mod Ramp
pub mod Keys
pub mod Acquire
pub mod Feedback
pub mod Finalize
pub mod Eviction
pub mod Ledger
pub mod Booking
pub mod Attempt
pub mod Settling
pub mod Amending
pub mod Rejecting
pub mod Easing
pub mod Undo
pub mod Room
pub mod Frame
pub mod Lasting
pub mod Holdoff
pub mod Remap
pub mod History
pub mod Tracking
pub mod Bound
pub mod Cardinality
pub mod Counting
pub mod Reporting
pub mod Backoff
pub mod Blocking
pub mod Isolation
pub mod Throttling
pub mod Quota
pub mod Scoping
pub mod Settings
pub mod Spending
pub mod Guarantee
pub mod Log
pub mod Overrun
