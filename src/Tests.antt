-- ===== src/Tests.antt =====
-- Runs of the definitions at concrete inputs, and the theorems applied to them.
mod Calls
mod Pools
mod Ramps
mod Requests
mod Limits
mod Backoffs
mod Overruns
mod Carriers
mod Memory
mod Gates
