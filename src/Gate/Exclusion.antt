-- ===== src/Gate/Exclusion.antt =====
-- The file lock of src/durable_open_gate.rs: who holds it, and what a second `open` answers.
use Prim.Native.String.{String}
use shared_rate_limiter.Base.{
  ℕ, max, ltb, ◌≡◌, ◌≢◌, ◌⊎◌, inl, inr, refl, sym, ap, subst, ◌∙◌, if-cases, true, Bool-cases,
  Option-cases, none, some, Result, ok, err, List, [], ◌∷◌,
}
use shared_rate_limiter.Types.{Duration}
use shared_rate_limiter.Gate.Types.{
  DurableOpenGateConfig, io, heed, encode, already_locked, duration_to_millis, count_attempt,
}
use shared_rate_limiter.Gate.Outside.{Outside}
use shared_rate_limiter.Gate.Open.{
  DurableOpenGate, Failure, lock_file, lock_opened, acquire_file_lock, drop_gate, with_lock,
  open_gate, read_lock_until_ms,
}
use shared_rate_limiter.Gate.Acquire.{
  Answer, persist_error_decision, after_commit, after_put, after_encode, after_read, after_begin,
  acquire_at, try_acquire_open, new_record,
}
use shared_rate_limiter.Gate.Locks.{Locks, FileOpened, Locked, IsExclusive}
use shared_rate_limiter.Gate.Holding.{Took, drop_gate-frees, with_lock-Took, lock_opened-Acquired}

module _ (O : Outside) where
  -- Attempts on a gate, one after the other.
  abbrev pub session : DurableOpenGate O → List Duration → O.World → DurableOpenGate O × O.World
  session g [] w = (g, w)
  session g (now ∷ times) w = let (r, g', w') = try_acquire_open O g now w in session g' times w'

module _ (O : Outside) (X : Locks O) (L : IsExclusive O X) where
  -- An attempt moves no lock, and keeps the gate's file.
  module _ (w : O.World) (file : O.File) where
    abbrev Keeps : Answer O → Type 0
    Keeps (r, g, w') = (X.holder w' ≡ X.holder w) × (g.file_lock ≡ file)

    persist-Keeps :
        (g : DurableOpenGate O) (e : Failure O) (now_ms : ℕ) (w' : O.World)
        → X.holder w' ≡ X.holder w
        → g.file_lock ≡ file
        → Keeps (persist_error_decision O g e now_ms w')
    unfolding persist_error_decision
    persist-Keeps g e now_ms w' same own =
        if-cases Keeps g.cfg.fail_closed _ _ (same, own) (same, own)

    commit-Keeps :
        (g : DurableOpenGate O) (now_ms : ℕ) (r : Result (Unit {0}) O.HeedError × O.World)
        → X.holder r.1 ≡ X.holder w
        → g.file_lock ≡ file
        → Keeps (after_commit O g now_ms r)
    unfolding after_commit
    commit-Keeps g now_ms (err e, w') same own = persist-Keeps g (heed e) now_ms w' same own
    commit-Keeps g now_ms (ok _, w') same own = (same, own)

    put-Keeps :
        (g : DurableOpenGate O) (now_ms : ℕ) (txn : O.Txn)
        (r : Result (Unit {0}) O.HeedError × O.World)
        → X.holder r.1 ≡ X.holder w
        → g.file_lock ≡ file
        → Keeps (after_put O g now_ms txn r)
    unfolding after_put
    put-Keeps g now_ms txn (err e, w') same own =
        persist-Keeps g (heed e) now_ms _ (L.abort txn w' ∙ same) own
    put-Keeps g now_ms txn (ok _, w') same own =
        commit-Keeps g now_ms (O.commit txn w') (L.commit txn w' ∙ same) own

    encode-Keeps :
        (g : DurableOpenGate O) (now_ms : ℕ) (txn : O.Txn) (w' : O.World)
        (r : Result O.Bytes String)
        → X.holder w' ≡ X.holder w
        → g.file_lock ≡ file
        → Keeps (after_encode O g now_ms txn w' r)
    unfolding after_encode
    encode-Keeps g now_ms txn w' (err e) same own =
        persist-Keeps g (encode e) now_ms _ (L.abort txn w' ∙ same) own
    encode-Keeps g now_ms txn w' (ok bytes) same own =
        put-Keeps g now_ms txn (O.put g.db txn g.cfg.record_key bytes w')
          (L.put g.db txn g.cfg.record_key bytes w' ∙ same) own

    read-Keeps :
        (g : DurableOpenGate O) (now_ms : ℕ) (txn : O.Txn) (w' : O.World) (r : Result ℕ (Failure O))
        → X.holder w' ≡ X.holder w
        → g.file_lock ≡ file
        → Keeps (after_read O g now_ms txn w' r)
    unfolding after_read
    read-Keeps g now_ms txn w' (err e) same own =
        persist-Keeps g e now_ms _ (L.abort txn w' ∙ same) own
    read-Keeps g now_ms txn w' (ok persisted) same own =
        if-cases Keeps (ltb now_ms (max g.cached_lock_until_ms persisted)) _ _
          (L.abort txn w' ∙ same, own)
          (encode-Keeps g now_ms txn w' (O.to_bytes (new_record g.cfg now_ms)) same own)

    begin-Keeps :
        (g : DurableOpenGate O) (now_ms : ℕ) (r : Result O.Txn O.HeedError × O.World)
        → X.holder r.1 ≡ X.holder w
        → g.file_lock ≡ file
        → Keeps (after_begin O g now_ms r)
    unfolding after_begin
    begin-Keeps g now_ms (err e, w') same own = (same, own)
    begin-Keeps g now_ms (ok txn, w') same own =
        read-Keeps g now_ms txn w' (read_lock_until_ms O g txn w') same own

  pub try_acquire_open_locks :
      (g : DurableOpenGate O) (now : Duration) (w : O.World)
      → let (r, g', w') = try_acquire_open O g now w in
        (X.holder w' ≡ X.holder w) × (g'.file_lock ≡ g.file_lock)
  unfolding try_acquire_open acquire_at
  try_acquire_open_locks g now w =
      if-cases (Keeps w g.file_lock) (ltb (duration_to_millis now) g.cached_lock_until_ms) _ _
        (refl, refl)
        (begin-Keeps w g.file_lock (record g { stats = count_attempt g.stats })
          (duration_to_millis now) (O.write_txn g.env w) (L.write_txn g.env w) refl)

  session_locks :
      (g : DurableOpenGate O) (times : List Duration) (w : O.World)
      → (X.holder (session O g times w).1 ≡ X.holder w)
        × ((session O g times w).0.file_lock ≡ g.file_lock)
  session_locks g [] w = (refl, refl)
  session_locks g (now ∷ times) w =
      let (same, own) = try_acquire_open_locks g now w in
      let a = try_acquire_open O g now w in
      let (same', own') = session_locks a.1 times a.2 in (same' ∙ same, own' ∙ own)

  module _ (path : O.FilePath) (cfg : DurableOpenGateConfig) (p : O.FilePath) (other : O.File) where
    -- The answer of `open` where the lock is held: the file could not be opened, or it is locked. The
    -- holder keeps the lock.
    abbrev Refuses :
        Result O.File O.IoError → Result (DurableOpenGate O) (Failure O) × O.World → Type 0
    Refuses opened r =
        ((r.0 ≡ err already_locked) ⊎ ((e : O.IoError) × (opened ≡ err e) × (r.0 ≡ err (io e))))
        × (X.holder r.1 p ≡ some other)

    lock_file-Refuses :
        (file : O.File) (w : O.World)
        → X.file_path file ≡ p
        → X.holder w p ≡ some other
        → X.holder w p ≢ some file
        → (r : Result (Unit {0}) O.IoError × O.World) → Locked X file w r
        → ((e : O.IoError) → r.0 ≡ err e → O.would_block e ≡ true)
        → Refuses (ok file) (with_lock O cfg path (lock_file O file r))
    unfolding lock_file with_lock
    lock_file-Refuses file w at held fresh (ok _, w') (free, _) blocks =
        absurd (cc (subst (λ q. X.holder w q ≡ none) at free, held))
    lock_file-Refuses file w at held fresh (err e, w') same blocks =
        let there : X.holder w' p ≡ X.holder w p = ap (λ f. f p) same in
        (
          inl (rw (blocks e refl) refl),
          L.close_file file w' p (λ h. fresh (sym there ∙ h)) ∙ there ∙ held,
        )

    lock_opened-Refuses :
        (w : O.World)
        → X.holder w p ≡ some other
        → (r : Result O.File O.IoError × O.World) → FileOpened X p w r
        → Refuses r.0 (with_lock O cfg path (lock_opened O r))
    unfolding lock_opened with_lock
    lock_opened-Refuses w held (err e, w') same = (
      elim (Bool-cases (O.would_block e)) [
        | inl blocks ↦ inl (rw blocks refl)
        | inr fails ↦ inr (e, refl, rw fails refl)
      ],
      ap (λ f. f p) same ∙ held,
    )
    lock_opened-Refuses w held (ok file, w') (same, at, fresh) =
        let held' : X.holder w' p ≡ some other = ap (λ f. f p) same ∙ held in
        let (answer, kept) =
          lock_file-Refuses file w' at held' (λ h. fresh (sym (ap (λ f. f p) same) ∙ h))
            (O.try_lock_exclusive file w') (L.try_lock file w')
            (λ e.
              L.try_lock_held file other w'
                (subst (λ q. X.holder w' q ≡ some other) (sym at) held')) in
        (elim answer [ inl locked ↦ inl locked | inr (e, opened, _) ↦ absurd (cc opened) ], kept)

  -- A gate that `open` answers holds the lock of its path.
  opened_holds :
      (path : O.FilePath) (cfg : DurableOpenGateConfig) (w w' : O.World) (g : DurableOpenGate O)
      → open_gate O path cfg w ≡ (ok g, w')
      → X.holder w' (O.join path ".open_gate.lock") ≡ some g.file_lock
  unfolding open_gate acquire_file_lock
  opened_holds path cfg w w' g opened =
      let p = O.join path ".open_gate.lock" in
      elim (Option-cases (X.holder w p)) [
        | inl free ↦ subst (Took O X L p) opened (
            with_lock-Took O X L p cfg path (acquire_file_lock O path w)
              (lock_opened-Acquired O X L p w free (O.open_file p w) (L.open_file p w)))
        | inr (other, held) ↦
            elim (lock_opened-Refuses path cfg p other w held (O.open_file p w)
              (L.open_file p w)).0 [
                | inl locked ↦ absurd (cc (locked, ap (λ r. r.0) opened))
                | inr (e, _, fails) ↦ absurd (cc (fails, ap (λ r. r.0) opened))
              ]
      ]

  -- With file locks that exclude each other, and a gate that `open` has answered: after any attempts on
  -- it, a second `open` of its path, with any configuration, answers that the gate is locked, unless the
  -- lock file cannot be opened, which is the error then; the first gate keeps the lock all the same,
  -- and nobody has it once the gate is dropped.
  pub second_refused :
      (path : O.FilePath) (cfg cfg' : DurableOpenGateConfig) (w w' : O.World)
      (g : DurableOpenGate O) (times : List Duration)
      → open_gate O path cfg w ≡ (ok g, w')
      → let p = O.join path ".open_gate.lock" in
        let (h, w'') = session O g times w' in
        let again = open_gate O path cfg' w'' in
        ((again.0 ≡ err already_locked)
          ⊎ ((e : O.IoError) × ((O.open_file p w'').0 ≡ err e) × (again.0 ≡ err (io e))))
        × (X.holder again.1 p ≡ some g.file_lock)
        × (X.holder (drop_gate O h again.1) p ≡ none)
  unfolding open_gate acquire_file_lock
  second_refused path cfg cfg' w w' g times opened =
      let p = O.join path ".open_gate.lock" in
      let (same, own) = session_locks g times w' in
      let s = session O g times w' in
      let held = ap (λ f. f p) same ∙ opened_holds path cfg w w' g opened in
      let (answer, kept) =
        lock_opened-Refuses path cfg' p g.file_lock s.1 held (O.open_file p s.1)
          (L.open_file p s.1) in
      (answer, kept, drop_gate-frees O X L p s.0 _ (kept ∙ ap some (sym own)))
