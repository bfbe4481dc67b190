-- ===== src/Gate/Restart.antt =====
-- src/durable_open_gate.rs: a gate that is dropped and opened again, as after a restart of the process.
use shared_rate_limiter.Base.{
  ◌≤◌, ◌<◌, ◌≡◌, refl, sym, subst, ap, ◌∙◌, true, ltb, Bool-cases, inl, inr, ok, List, arith,
}
use shared_rate_limiter.Types.{Duration}
use shared_rate_limiter.Gate.Types.{
  DurableOpenGateConfig, allowed, blocked, duration_to_millis, millis_to_duration,
}
use shared_rate_limiter.Gate.Outside.{Outside}
use shared_rate_limiter.Gate.Open.{DurableOpenGate, drop_gate, open_gate}
use shared_rate_limiter.Gate.Acquire.{lock_end, acquire_at, try_acquire_open}
use shared_rate_limiter.Gate.Lawful.{View, IsLawful}
use shared_rate_limiter.Gate.Stored.{lock_in, persisted}
use shared_rate_limiter.Gate.Spacing.{Decided, try_acquire_open-Fair, run, run-le}
use shared_rate_limiter.Gate.Abstract.{millis_to_duration_mono, Stored}
use shared_rate_limiter.Gate.Refinement.{try_acquire_open-Meets}
use shared_rate_limiter.Gate.Restore.{IsAt, lock_at, Restored, open_gate-Opens}

module _ (O : Outside) where
  -- A call before the end of the cached lock.
  locked_lem :
      (g : DurableOpenGate O) (now : Duration) (w : O.World)
      → duration_to_millis now < g.cached_lock_until_ms
      → (try_acquire_open O g now w).0 ≡ ok (blocked (millis_to_duration g.cached_lock_until_ms))
  unfolding try_acquire_open acquire_at
  locked_lem g now w h = elim (Bool-cases (ltb (duration_to_millis now) g.cached_lock_until_ms)) [
    | inl locked ↦ rw locked refl
    | inr free ↦ ground (arith, h, free)
  ]

module _ (O : Outside) (V : View O) (L : IsLawful O V) where
  persisted-lock_at :
      (path : O.FilePath) (cfg : DurableOpenGateConfig) (g : DurableOpenGate O) (w : O.World)
      → IsAt O V path cfg g
      → persisted O V g w ≡ lock_at O V path cfg w
  persisted-lock_at path cfg g w is_at =
      ap (λ p. lock_in O (V.stored w p (V.db_name g.db) g.cfg.record_key)) is_at.env
      ∙ ap (λ n. lock_in O (V.stored w path n g.cfg.record_key)) is_at.db
      ∙ ap (λ c. lock_in O (V.stored w path cfg.db_name c.record_key)) is_at.cfg

  drop_gate-stored : (g : DurableOpenGate O) (w : O.World) → V.stored (drop_gate O g w) ≡ V.stored w
  unfolding drop_gate
  drop_gate-stored g w = L.close_env g.env (O.close_file g.file_lock w) ∙ L.close_file g.file_lock w

  -- What a grant leaves stored.
  module _ (path : O.FilePath) (cfg : DurableOpenGateConfig) (closed : cfg.fail_closed ≡ true)
      (g : DurableOpenGate O) (is_at : IsAt O V path cfg g) (now : Duration) (w : O.World)
      {until : Duration} (first : (try_acquire_open O g now w).0 ≡ ok (allowed until)) where
    granted_until : until ≡ millis_to_duration (lock_end cfg (duration_to_millis now))
    granted_until =
        let a = try_acquire_open O g now w in
        let d =
          subst
            (λ r.
              Decided g.cfg (duration_to_millis now) g.cached_lock_until_ms r
                a.1.cached_lock_until_ms)
            first (try_acquire_open-Fair O g now w).decided in
        d.2
        ∙ ap millis_to_duration d.1
        ∙ ap (λ c. millis_to_duration (lock_end c (duration_to_millis now))) is_at.cfg

    granted_stored :
        lock_at O V path cfg (try_acquire_open O g now w).2 ≡ lock_end cfg (duration_to_millis now)
    granted_stored =
        let a = try_acquire_open O g now w in
        let m = try_acquire_open-Meets O V L g w now (ap (λ c. c.fail_closed) is_at.cfg ∙ closed) in
        sym (persisted-lock_at path cfg g a.2 is_at)
        ∙ subst (λ r. Stored O g.cfg (duration_to_millis now) r (persisted O V g a.2)) first
            m.stored
        ∙ ap (λ c. lock_end c (duration_to_millis now)) is_at.cfg

    -- The cache of the gate that is opened next.
    reopened :
        (h : DurableOpenGate O) (w' : O.World)
        → open_gate O path cfg
            (drop_gate O (try_acquire_open O g now w).1 (try_acquire_open O g now w).2)
          ≡ (ok h, w')
        → h.cached_lock_until_ms ≡ lock_end cfg (duration_to_millis now)
    reopened h w' opened =
        let a = try_acquire_open O g now w in
        let dropped = drop_gate O a.1 a.2 in
        let restored =
          subst (λ r. Restored O V path cfg (lock_at O V path cfg dropped) r.0) opened
            (open_gate-Opens O V L path cfg closed dropped).gate in
        restored.1
        ∙ ap (λ s. lock_in O (s path cfg.db_name cfg.record_key)) (drop_gate-stored a.1 a.2)
        ∙ granted_stored

  -- Over a lawful database, a gate grants and is dropped, and its path is opened again with the same configuration, which fails
  -- closed. Whatever calls the new gate has answered, it is blocked at any time before the end of the
  -- granted window, until then or later.
  pub restart_blocked :
      (path : O.FilePath) (cfg : DurableOpenGateConfig)
      → cfg.fail_closed ≡ true
      → (g : DurableOpenGate O) → IsAt O V path cfg g
      → (now later : Duration) (w : O.World) {until : Duration}
      → (try_acquire_open O g now w).0 ≡ ok (allowed until)
      → (h : DurableOpenGate O) (w' : O.World)
      → open_gate O path cfg
          (drop_gate O (try_acquire_open O g now w).1 (try_acquire_open O g now w).2)
        ≡ (ok h, w')
      → (calls : List (Duration × O.World)) (w'' : O.World)
      → duration_to_millis later < lock_end cfg (duration_to_millis now)
      → ((try_acquire_open O (run O h calls) later w'').0
          ≡ ok (blocked (millis_to_duration (run O h calls).cached_lock_until_ms)))
        × (until ≤ millis_to_duration (run O h calls).cached_lock_until_ms)
  restart_blocked path cfg closed g is_at now later w {until} first h w' opened calls w'' early =
      let cache = reopened path cfg closed g is_at now w first h w' opened in
      let grows = (run-le O h calls).0 in
      let late = granted_until path cfg closed g is_at now w first in
      (
        locked_lem O (run O h calls) later w'' (omega (arith, early, cache, grows)),
        rw late (millis_to_duration_mono (omega (arith, cache, grows))),
      )
