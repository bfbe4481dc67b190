-- ===== src/Gate/Sharing.antt =====
-- src/durable_open_gate.rs: a schedule of calls by the clones of a shared gate, each with what
-- `try_lock` answers it.
use shared_rate_limiter.Base.{◌≤◌, ◌≡◌, refl, subst, List, [], ◌∷◌, ok}
use shared_rate_limiter.Types.{Duration}
use shared_rate_limiter.Gate.Types.{allowed, duration_to_millis}
use shared_rate_limiter.Gate.Outside.{Outside}
use shared_rate_limiter.Gate.Open.{DurableOpenGate}
use shared_rate_limiter.Gate.Acquire.{lock_end, try_acquire_open}
use shared_rate_limiter.Gate.Shared.{
  TryLock, acquired, would_block, poisoned, try_acquire_open_fail_closed,
}
use shared_rate_limiter.Gate.Spacing.{run, run_apart}

module _ (O : Outside) where
  -- The gate behind a schedule.
  unfoldable pub run_shared :
      DurableOpenGate O → List (TryLock × Duration × O.World) → DurableOpenGate O
  unfolding try_acquire_open_fail_closed
  run_shared g [] = g
  run_shared g ((lock, now, w) ∷ calls) =
      run_shared (try_acquire_open_fail_closed O lock g now w).1 calls

  -- The calls of a schedule that got the lock.
  abbrev held : List (TryLock × Duration × O.World) → List (Duration × O.World)
  held [] = []
  held ((acquired, now, w) ∷ calls) = (now, w) ∷ held calls
  held ((would_block, now, w) ∷ calls) = held calls
  held ((poisoned, now, w) ∷ calls) = held calls

  run_shared-held :
      (g : DurableOpenGate O) (calls : List (TryLock × Duration × O.World))
      → run_shared g calls ≡ run O g (held calls)
  unfolding run_shared run try_acquire_open_fail_closed
  run_shared-held g [] = refl
  run_shared-held g ((acquired, now, w) ∷ calls) =
      run_shared-held (try_acquire_open O g now w).1 calls
  run_shared-held g ((would_block, now, w) ∷ calls) = run_shared-held g calls
  run_shared-held g ((poisoned, now, w) ∷ calls) = run_shared-held g calls

  -- Two grants of one gate, each to any clone of its handle, are a window apart in whole milliseconds,
  -- whatever calls of the clones come between them and whichever of these get the lock, whether the
  -- gate fails closed or open, and whatever the database answers to any call. The later grant ends
  -- no sooner than the earlier one.
  pub shared_apart :
      (g : DurableOpenGate O) (lock lock' : TryLock) (now later : Duration) (w w' : O.World)
      (calls : List (TryLock × Duration × O.World)) {until until' : Duration}
      → (try_acquire_open_fail_closed O lock g now w).0 ≡ ok (allowed until)
      → (try_acquire_open_fail_closed O lock'
          (run_shared (try_acquire_open_fail_closed O lock g now w).1 calls)
          later
          w').0
        ≡ ok (allowed until')
      → (lock_end g.cfg (duration_to_millis now) ≤ duration_to_millis later) × (until ≤ until')
  unfolding try_acquire_open_fail_closed
  shared_apart g acquired acquired now later w w' calls {until} {until'} first second =
      run_apart O g now later w w' (held calls) first (
        subst (λ h. (try_acquire_open O h later w').0 ≡ ok (allowed until'))
          (run_shared-held (try_acquire_open O g now w).1 calls) second)
  shared_apart g acquired would_block now later w w' calls first second = absurd (cc second)
  shared_apart g acquired poisoned now later w w' calls first second = absurd (cc second)
  shared_apart g would_block lock' now later w w' calls first second = absurd (cc first)
  shared_apart g poisoned lock' now later w w' calls first second = absurd (cc first)
