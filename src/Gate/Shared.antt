-- ===== src/Gate/Shared.antt =====
-- `SharedDurableOpenGate` of src/durable_open_gate.rs. Its clones share one gate behind a mutex: a
-- call is given what `Mutex::try_lock` answers, and touches the gate only with the guard.
use shared_rate_limiter.Base.{Option, none, some, Result, ok, err}
use shared_rate_limiter.Types.{Duration}
use shared_rate_limiter.Gate.Types.{DurableOpenGateConfig, blocked, OpenGateStats, lock_poisoned}
use shared_rate_limiter.Gate.Outside.{Outside}
use shared_rate_limiter.Gate.Open.{DurableOpenGate, Failure, open_gate}
use shared_rate_limiter.Gate.Acquire.{Answer, try_acquire_open}

pub record SharedDurableOpenGate (O : Outside) : Type 0 where
  pub inner : DurableOpenGate O

pub data TryLock : Type 0 where
  acquired would_block poisoned : TryLock

module _ (O : Outside) where
  unfoldable pub new : DurableOpenGate O → SharedDurableOpenGate O
  new inner = record { inner = inner }

  unfoldable pub opened :
      Result (DurableOpenGate O) (Failure O) × O.World
      → Result (SharedDurableOpenGate O) (Failure O) × O.World
  unfolding new
  opened (ok g, w) = (ok (new g), w)
  opened (err e, w) = (err e, w)

  unfoldable pub open_shared :
      O.FilePath
      → DurableOpenGateConfig
      → O.World
      → Result (SharedDurableOpenGate O) (Failure O) × O.World
  unfolding open_gate opened
  open_shared path cfg w = opened (open_gate O path cfg w)

  unfoldable pub try_acquire_open_fail_closed :
      TryLock → DurableOpenGate O → Duration → O.World → Answer O
  unfolding try_acquire_open
  try_acquire_open_fail_closed acquired g now w = try_acquire_open O g now w
  try_acquire_open_fail_closed would_block g now w = (ok (blocked now), g, w)
  try_acquire_open_fail_closed poisoned g now w = (err lock_poisoned, g, w)

  unfoldable pub stats : TryLock → DurableOpenGate O → Option OpenGateStats
  stats acquired g = some g.stats
  stats _ g = none
