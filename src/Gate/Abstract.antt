-- ===== src/Gate/Abstract.antt =====
-- The abstract gate of src/durable_open_gate.rs: one number, the end of the lock in milliseconds. Its
-- concrete form is the cache of a gate together with the record in the database.
use shared_rate_limiter.Base.{ℕ, ◌≤◌, ◌<◌, ◌≡◌, ◌⊎◌, max, Result, ok, err, arith}
use shared_rate_limiter.Gate.Types.{
  DurableOpenGateConfig, OpenGateDecision, allowed, blocked, millis_to_duration,
}
use shared_rate_limiter.Gate.Outside.{Outside}
use shared_rate_limiter.Gate.Open.{DurableOpenGate, Failure}
use shared_rate_limiter.Gate.Acquire.{lock_end, Answer}
use shared_rate_limiter.Gate.Lawful.{View}
use shared_rate_limiter.Gate.Stored.{persisted}

pub millis_to_duration_mono : {a b : ℕ} → a ≤ b → millis_to_duration a ≤ millis_to_duration b
unfolding millis_to_duration
millis_to_duration_mono h = omega (arith, h)

-- One attempt on the abstract gate: what it may answer, and the lock that it leaves. An error grants
-- nothing, and leaves the lock, or starts it as a grant would.
abbrev pub Spec :
    {E : Type 0} → DurableOpenGateConfig → ℕ → ℕ → Result OpenGateDecision E → ℕ → Type 0
Spec cfg now_ms lock (ok (allowed until)) lock' =
    (lock ≤ now_ms) × (lock' ≡ lock_end cfg now_ms) × (until ≡ millis_to_duration lock')
Spec cfg now_ms lock (ok (blocked until)) lock' =
    (now_ms < lock) × (lock' ≡ lock) × (until ≤ millis_to_duration lock)
Spec cfg now_ms lock (err e) lock' =
    (lock' ≡ lock) ⊎ ((lock ≤ now_ms) × (lock' ≡ lock_end cfg now_ms))

module _ (O : Outside) where
  -- A grant is in the database.
  abbrev pub Stored : DurableOpenGateConfig → ℕ → Result OpenGateDecision (Failure O) → ℕ → Type 0
  Stored cfg now_ms (ok (allowed until)) stored = stored ≡ lock_end cfg now_ms
  Stored cfg now_ms (ok (blocked until)) stored = Unit
  Stored cfg now_ms (err e) stored = Unit

module _ (O : Outside) (V : View O) where
  -- The abstract gate.
  abbrev pub lock_of : DurableOpenGate O → O.World → ℕ
  lock_of g w = max g.cached_lock_until_ms (persisted O V g w)

  -- An answer to a call on `g`, which kept its handles and its configuration.
  pub record Meets (g : DurableOpenGate O) (w : O.World) (now_ms : ℕ) (a : Answer O) : Type 0 where
    pub env : a.1.env ≡ g.env
    pub db : a.1.db ≡ g.db
    pub cfg : a.1.cfg ≡ g.cfg
    pub stored : Stored O g.cfg now_ms a.0 (persisted O V g a.2)
    pub spec :
        Spec g.cfg now_ms (lock_of g w) a.0 (max a.1.cached_lock_until_ms (persisted O V g a.2))
