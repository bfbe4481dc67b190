-- ===== src/Lib.antt =====
-- shared-rate_limiter: a synchronous rate limiter with two-phase permits.
--
-- `RateLimiter::try_acquire` reserves capacity for a key and returns a permit, and the caller gives
-- the permit to `commit` or `refund` later. Each key has a bucket, which holds a backoff deadline
-- beside the accounting of the configured algorithm: a fixed window, or a pool of credits that
-- refills. A slow start scales the configured amounts for a while. Feedback of a server blocks a
-- bucket or all of them and may send a route to another bucket. An observer hears of denials and
-- feedback. Beside the limiter there is a table of requests in flight, and a gate that grants one
-- opening for each window and keeps its lock in a database, so that it outlives the process.
--
-- Word: the machine numbers and their saturating operations. Cost, Types: src/types.rs.
-- Config: src/config.rs. Feedback: src/feedback.rs. Observer: src/observer.rs.
-- SlowStart: src/slow_start.rs. TokenBucket: src/token_bucket.rs.
-- FixedWindow, Bucket: src/bucket.rs, the accounting of a window and the bucket around it.
-- HashMap: the standard library's map, src/hash.rs.
-- Limiter: src/limiter.rs. State has the struct, its errors and the small methods; Acquire has
-- `try_acquire`, Keys the bound on the keys and the eviction, Ramp the slow start, Feedback
-- `apply_feedback`, Finalize `commit` and `refund`, Update `update_config`. The other modules below
-- Limiter, like those below the other parts, hold proofs.
-- InFlight: src/in_flight.rs, with Waiters, Heap, Table and Carrier for its types.
-- Gate: src/durable_open_gate.rs. Types has the configuration, the decisions, the counters, the errors
-- and the stored record; Open the gate, `FileLock` and `open`; Acquire `try_acquire_open`; Shared
-- `SharedDurableOpenGate`. Outside is the parameter for files, LMDB (heed) and rkyv, and Lawful says
-- what the gate relies on there, over a view of what is stored; Locks says it of file locks. Abstract
-- has the abstract gate, one number that ends the lock.
-- Fleet of InFlight has the calls of an application that keeps its permits in carriers.
-- Clock: src/clock.rs, with `SystemClock` in System over `std::time::Instant` as a parameter.
-- Tests: runs at concrete inputs, and the database in memory that they use.
--
-- A method with `&mut self` is a function that returns the new state, behind its result where it
-- has one. A `Duration` is its number of nanoseconds, with the bound of `u64` seconds where the
-- source saturates. `u32`, `u64` and `u128` arithmetic saturates or wraps where the source does;
-- the build is a release build, in which `debug_assert!` does nothing and a plain addition wraps;
-- `usize` has 64 bits. A `HashMap` is an association list with one entry for a key, since no
-- operation depends on the order of its entries, and a `BinaryHeap` of reversed items a list in
-- their order. An observer is the log of the calls it received, newest first, since its methods
-- return nothing. All loops run over a list and are structural recursions: there is no fuel.
-- A window of length 0 would divide by zero in the source; no constructor of a configuration makes
-- one, and the theorems ask for a window that is not 0 where it matters.
--
-- The steps of `open` and `try_acquire_open` pass the state of the outside system on, and say where
-- a handle is dropped. `Mutex::try_lock` is an answer that a call of the shared gate is given.
--
-- Not modelled: `std::time::Instant`, LMDB, rkyv and files (parameters), `Debug`, `Error` and `From`
-- implementations, the `Display` of the other errors, getters that only read a
-- field, `shared_inner` (it hands out the mutex itself), the integration tests.
pub mod Base
pub mod Word
pub mod Cost
pub mod Types
pub mod Config
pub mod Feedback
pub mod Observer
pub mod SlowStart
pub mod TokenBucket
pub mod FixedWindow
pub mod Bucket
pub mod HashMap
pub mod Limiter
pub mod InFlight
pub mod Gate
pub mod Clock
pub mod Tests
