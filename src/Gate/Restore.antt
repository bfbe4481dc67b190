-- ===== src/Gate/Restore.antt =====
-- src/durable_open_gate.rs: what `open` makes of the stored record.
use Prim.Native.String.{String}
use shared_rate_limiter.Base.{
  ℕ, ◌*◌, if-cases, ◌≡◌, refl, sym, ap, ◌∙◌, true, ltb, ◌==◌, inl, inr, Option, Result, ok, err,
}
use shared_rate_limiter.Gate.Types.{DurableOpenGateConfig, io, heed, invalid_config, count_read}
use shared_rate_limiter.Gate.Outside.{Outside}
use shared_rate_limiter.Gate.Open.{
  DurableOpenGate, Failure, lock_file, lock_opened, acquire_file_lock, decode_lock,
  read_lock_until_ms, load_in, load_lock_until_ms, drop_gate, loaded, committed_db, created_db,
  create_db, new_gate, with_db, with_env, with_dir, with_lock, open_gate,
}
use shared_rate_limiter.Gate.Lawful.{View, IsLawful, Began, Committed, Created, Opened}
use shared_rate_limiter.Gate.Stored.{lock_in, persisted, Read, decode_lock-Read}

module _ (O : Outside) (V : View O) where
  -- The gate that `open` makes of a path and a configuration.
  pub record IsAt (path : O.FilePath) (settings : DurableOpenGateConfig) (g : DurableOpenGate O)
      : Type 0 where
    pub env : V.env_path g.env ≡ path
    pub db : V.db_name g.db ≡ settings.db_name
    pub cfg : g.cfg ≡ settings

  -- The lock that is stored for a path and a configuration.
  abbrev pub lock_at : O.FilePath → DurableOpenGateConfig → O.World → ℕ
  lock_at path cfg w = lock_in O (V.stored w path cfg.db_name cfg.record_key)

  abbrev pub Restored :
      O.FilePath → DurableOpenGateConfig → ℕ → Result (DurableOpenGate O) (Failure O) → Type 0
  Restored path cfg lock (ok g) = IsAt path cfg g × (g.cached_lock_until_ms ≡ lock)
  Restored path cfg lock (err e) = Unit

  -- An answer of `open` and the system behind it: the records under the path are as they were.
  pub record Opens (path : O.FilePath) (cfg : DurableOpenGateConfig) (w : O.World)
      (a : Result (DurableOpenGate O) (Failure O) × O.World) : Type 0 where
    pub stored : V.stored a.1 path ≡ V.stored w path
    pub gate : Restored path cfg (lock_at path cfg w) a.0

  module _ (L : IsLawful O V) (path : O.FilePath) (cfg : DurableOpenGateConfig)
      (closed : cfg.fail_closed ≡ true) (w : O.World) where
    -- A later state of the system with the same records under the path.
    abbrev Same : O.World → Type 0
    Same w' = V.stored w' path ≡ V.stored w path

    at : {w' w'' : O.World} → V.stored w'' ≡ V.stored w' → Same w' → Same w''
    at e same = ap (λ s. s path) e ∙ same

    close : (file : O.File) (w' : O.World) → Same w' → Same (O.close_file file w')
    close file w' same = at (L.close_file file w') same

    -- The gate that is made, and what its first read found.
    module _ (file : O.File) (env : O.Env) (db : O.Db) (w' : O.World) (here : V.env_path env ≡ path)
        (name : V.db_name db ≡ cfg.db_name) (same : Same w') where
      found_lock : persisted O V (new_gate O cfg file env db) w' ≡ lock_at path cfg w
      unfolding new_gate
      found_lock =
          ap (λ p. lock_in O (V.stored w' p (V.db_name db) cfg.record_key)) here
          ∙ ap (λ n. lock_in O (V.stored w' path n cfg.record_key)) name
          ∙ ap (λ s. lock_in O (s cfg.db_name cfg.record_key)) same

      loaded-Opens :
          (r : Result ℕ (Failure O)) (g : DurableOpenGate O) (w'' : O.World)
          → Read O V (new_gate O cfg file env db) w' r
          → IsAt path cfg g
          → Same w''
          → Opens path cfg w (loaded O (r, g, w''))
      unfolding loaded drop_gate
      loaded-Opens (ok value) g w'' found is_at kept = record {
        stored = kept;
        gate = (record { env = is_at.env; db = is_at.db; cfg = is_at.cfg }, found ∙ found_lock);
      }
      loaded-Opens (err e) g w'' found is_at kept =
          rw (ap (λ c. c.fail_closed) is_at.cfg ∙ closed) (record {
            stored =
                at (L.close_env g.env (O.close_file g.file_lock w'')) (close g.file_lock w'' kept);
            gate = tt;
          })

      load_in-Opens :
          (r : Result O.Txn O.HeedError × O.World)
          → Began V env w' r
          → Opens path cfg w (loaded O (load_in O (new_gate O cfg file env db) r))
      unfolding load_in new_gate read_lock_until_ms
      load_in-Opens (err e, w'') kept =
          loaded-Opens (err (heed e)) (new_gate O cfg file env db) w'' tt
            (record { env = here; db = name; cfg = refl }) (at kept same)
      load_in-Opens (ok txn, w'') (kept, own, snapshot) =
          loaded-Opens (decode_lock O (O.get db txn cfg.record_key w''))
            (record (new_gate O cfg file env db) {
              stats = count_read (new_gate O cfg file env db).stats;
            })
            (O.abort txn w'')
            (decode_lock-Read O V (new_gate O cfg file env db) w' txn w'' snapshot
              (O.get db txn cfg.record_key w'') (L.get db txn cfg.record_key w''))
            (record { env = here; db = name; cfg = refl }) (at (L.abort txn w'' ∙ kept) same)

    -- What the creation of the database answers.
    abbrev Made : Result O.Db (Failure O) × O.World → Type 0
    Made (ok db, w') = Same w' × (V.db_name db ≡ cfg.db_name)
    Made (err e, w') = Same w'

    -- The transaction that creates it.
    module _ (txn : O.Txn) (own : V.txn_path txn ≡ path) where
      in_path :
          (w' : O.World) {s : String → String → Option O.Bytes}
          → V.stored w' (V.txn_path txn) ≡ s
          → V.stored w' path ≡ s
      in_path w' e = ap (V.stored w') (sym own) ∙ e

      committed_db-Made :
          (db : O.Db) (w' : O.World)
          → V.db_name db ≡ cfg.db_name
          → Same w'
          → V.seen txn w' ≡ V.stored w path
          → (r : Result (Unit {0}) O.HeedError × O.World) → Committed V txn w' r
          → Made (committed_db O db r)
      unfolding committed_db
      committed_db-Made db w' name same snapshot (ok _, w'') new =
          (in_path w'' new ∙ snapshot, name)
      committed_db-Made db w' name same snapshot (err e, w'') (inl kept) =
          in_path w'' kept ∙ ap (V.stored w') own ∙ same
      committed_db-Made db w' name same snapshot (err e, w'') (inr new) = in_path w'' new ∙ snapshot

      created_db-Made :
          (w' : O.World)
          → Same w'
          → V.seen txn w' ≡ V.stored w path
          → (r : Result O.Db O.HeedError × O.World) → Created V cfg.db_name txn w' r
          → Made (created_db O txn r)
      unfolding created_db
      created_db-Made w' same snapshot (err e, w'') kept = at (L.abort txn w'' ∙ kept) same
      created_db-Made w' same snapshot (ok db, w'') (kept, saw, name) =
          committed_db-Made db w'' name (at kept same) (saw ∙ snapshot) (O.commit txn w'')
            (L.commit txn w'')

    create_db-Made :
        (env : O.Env) (w' : O.World)
        → V.env_path env ≡ path
        → Same w'
        → (r : Result O.Txn O.HeedError × O.World) → Began V env w' r
        → Made (create_db O env cfg.db_name r)
    unfolding create_db
    create_db-Made env w' here same (err e, w'') kept = at kept same
    create_db-Made env w' here same (ok txn, w'') (kept, own, snapshot) =
        created_db-Made txn (own ∙ here) w'' (at kept same)
          (snapshot ∙ ap (V.stored w') here ∙ same) (O.create_database env txn cfg.db_name w'')
          (L.create_database env txn cfg.db_name w'')

    failed : (e : Failure O) (w' : O.World) → Same w' → Opens path cfg w (err e, w')
    failed e w' same = record { stored = same; gate = tt }

    with_db-Opens :
        (file : O.File) (env : O.Env)
        → V.env_path env ≡ path
        → (r : Result O.Db (Failure O) × O.World) → Made r
        → Opens path cfg w (with_db O cfg file env r)
    unfolding with_db load_lock_until_ms
    with_db-Opens file env here (err e, w') same =
        failed e _ (close file (O.close_env env w') (at (L.close_env env w') same))
    with_db-Opens file env here (ok db, w') (same, name) =
        load_in-Opens file env db w' here name same (O.read_txn env w') (L.read_txn env w')

    with_env-Opens :
        (file : O.File) (w' : O.World)
        → Same w'
        → (r : Result O.Env O.HeedError × O.World) → Opened V path w' r
        → Opens path cfg w (with_env O cfg file r)
    unfolding with_env
    with_env-Opens file w' same (err e, w'') kept =
        failed (heed e) _ (close file w'' (at kept same))
    with_env-Opens file w' same (ok env, w'') (kept, here) =
        with_db-Opens file env here (create_db O env cfg.db_name (O.write_txn env w''))
          (create_db-Made env w'' here (at kept same) (O.write_txn env w'') (L.write_txn env w''))

    with_dir-Opens :
        (file : O.File) (r : Result (Unit {0}) O.IoError × O.World)
        → Same r.1
        → Opens path cfg w (with_dir O cfg path file r)
    unfolding with_dir
    with_dir-Opens file (err e, w') same = failed (io e) _ (close file w' same)
    with_dir-Opens file (ok _, w') same =
        with_env-Opens file w' same (O.open_env cfg.lmdb_map_size_bytes 4 path w')
          (L.open_env cfg.lmdb_map_size_bytes 4 path w')

    with_lock-Opens :
        (r : Result O.File O.IoError × O.World)
        → Same r.1
        → Opens path cfg w (with_lock O cfg path r)
    unfolding with_lock
    with_lock-Opens (err e, w') same = failed _ w' same
    with_lock-Opens (ok file, w') same =
        if-cases (Opens path cfg w) (cfg.window == 0) _ _
          (failed (invalid_config "window must be non-zero") _ (close file w' same))
          (if-cases (Opens path cfg w) (ltb cfg.lmdb_map_size_bytes (1024 * 1024)) _ _
            (failed (invalid_config "lmdb_map_size_bytes must be at least 1 MiB") _
              (close file w' same))
            (with_dir-Opens file (O.create_dir_all path w') (at (L.create_dir path w') same)))

    lock_file-Same :
        (file : O.File) (r : Result (Unit {0}) O.IoError × O.World)
        → Same r.1
        → Same (lock_file O file r).1
    unfolding lock_file
    lock_file-Same file (ok _, w') same = same
    lock_file-Same file (err e, w') same = close file w' same

    lock_opened-Same : (r : Result O.File O.IoError × O.World) → Same r.1 → Same (lock_opened O r).1
    unfolding lock_opened
    lock_opened-Same (err e, w') same = same
    lock_opened-Same (ok file, w') same =
        lock_file-Same file (O.try_lock_exclusive file w') (at (L.try_lock file w') same)

    -- Over a lawful database, `open` of a gate that fails closed keeps the records under its path, also where it fails. The gate
    -- that it answers stands at the path with the configuration, and has the stored lock as its cache.
    pub open_gate-Opens : Opens path cfg w (open_gate O path cfg w)
    unfolding open_gate acquire_file_lock
    open_gate-Opens = with_lock-Opens _ (
        lock_opened-Same (O.open_file (O.join path ".open_gate.lock") w)
          (at (L.open_file (O.join path ".open_gate.lock") w) refl))
