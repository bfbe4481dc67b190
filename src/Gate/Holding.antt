-- ===== src/Gate/Holding.antt =====
-- What `open` of src/durable_open_gate.rs does to the lock of its file.
use Prim.Native.String.{String}
use shared_rate_limiter.Base.{
  ℕ, ltb, ◌*◌, ◌==◌, ◌≡◌, ap, subst, ◌∙◌, if-cases, none, some, Result, ok, err,
}
use shared_rate_limiter.Gate.Types.{DurableOpenGateConfig, heed, count_read}
use shared_rate_limiter.Gate.Outside.{Outside}
use shared_rate_limiter.Gate.Open.{
  DurableOpenGate, Failure, lock_file, lock_opened, load_in, load_lock_until_ms, loaded, drop_gate,
  committed_db, created_db, create_db, new_gate, with_db, with_env, with_dir, with_lock,
  read_lock_until_ms,
}
use shared_rate_limiter.Gate.Locks.{Locks, FileOpened, Locked, IsExclusive}

module _ (O : Outside) (X : Locks O) (L : IsExclusive O X) (p : O.FilePath) where
  -- A gate holds the lock through its file, and nobody does where there is none.
  abbrev pub Took : Result (DurableOpenGate O) (Failure O) × O.World → Type 0
  Took (ok g, w) = X.holder w p ≡ some g.file_lock
  Took (err e, w) = X.holder w p ≡ none

  abbrev Holds : O.File → O.World → Type 0
  Holds file w = X.holder w p ≡ some file

  -- What does not move the locks keeps the holder.
  still : (file : O.File) {w w' : O.World} → X.holder w' ≡ X.holder w → Holds file w → Holds file w'
  still file same h = ap (λ f. f p) same ∙ h

  pub drop_gate-frees :
      (g : DurableOpenGate O) (w : O.World)
      → Holds g.file_lock w
      → X.holder (drop_gate O g w) p ≡ none
  unfolding drop_gate
  drop_gate-frees g w h =
      ap (λ f. f p) (L.close_env g.env (O.close_file g.file_lock w))
      ∙ L.close_held g.file_lock w p h

  loaded-Took :
      (r : Result ℕ (Failure O) × DurableOpenGate O × O.World)
      → Holds r.1.file_lock r.2
      → Took (loaded O r)
  unfolding loaded
  loaded-Took (ok value, g, w) h = h
  loaded-Took (err e, g, w) h = if-cases Took g.cfg.fail_closed _ _ (drop_gate-frees g w h) h

  load-Took :
      (g : DurableOpenGate O) (r : Result O.Txn O.HeedError × O.World)
      → Holds g.file_lock r.1
      → Took (loaded O (load_in O g r))
  unfolding load_in
  load-Took g (err e, w) h = loaded-Took (err (heed e), g, w) h
  load-Took g (ok txn, w) h =
      loaded-Took
        (read_lock_until_ms O g txn w, record g { stats = count_read g.stats }, O.abort txn w)
        (still g.file_lock (L.abort txn w) h)

  committed_db-Holds :
      (file : O.File) (db : O.Db) (r : Result (Unit {0}) O.HeedError × O.World)
      → Holds file r.1
      → Holds file (committed_db O db r).1
  unfolding committed_db
  committed_db-Holds file db (ok _, w) h = h
  committed_db-Holds file db (err e, w) h = h

  created_db-Holds :
      (file : O.File) (txn : O.Txn) (r : Result O.Db O.HeedError × O.World)
      → Holds file r.1
      → Holds file (created_db O txn r).1
  unfolding created_db
  created_db-Holds file txn (ok db, w) h =
      committed_db-Holds file db (O.commit txn w) (still file (L.commit txn w) h)
  created_db-Holds file txn (err e, w) h = still file (L.abort txn w) h

  create_db-Holds :
      (file : O.File) (env : O.Env) (name : String) (r : Result O.Txn O.HeedError × O.World)
      → Holds file r.1
      → Holds file (create_db O env name r).1
  unfolding create_db
  create_db-Holds file env name (ok txn, w) h =
      created_db-Holds file txn (O.create_database env txn name w)
        (still file (L.create_database env txn name w) h)
  create_db-Holds file env name (err e, w) h = h

  with_db-Took :
      (cfg : DurableOpenGateConfig) (file : O.File) (env : O.Env)
      (r : Result O.Db (Failure O) × O.World)
      → Holds file r.1
      → Took (with_db O cfg file env r)
  unfolding with_db load_lock_until_ms new_gate
  with_db-Took cfg file env (ok db, w) h =
      load-Took (new_gate O cfg file env db) (O.read_txn env w) (still file (L.read_txn env w) h)
  with_db-Took cfg file env (err e, w) h =
      L.close_held file (O.close_env env w) p (still file (L.close_env env w) h)

  with_env-Took :
      (cfg : DurableOpenGateConfig) (file : O.File) (r : Result O.Env O.HeedError × O.World)
      → Holds file r.1
      → Took (with_env O cfg file r)
  unfolding with_env
  with_env-Took cfg file (ok env, w) h =
      with_db-Took cfg file env (create_db O env cfg.db_name (O.write_txn env w)) (
        create_db-Holds file env cfg.db_name (O.write_txn env w) (still file (L.write_txn env w) h))
  with_env-Took cfg file (err e, w) h = L.close_held file w p h

  with_dir-Took :
      (cfg : DurableOpenGateConfig) (path : O.FilePath) (file : O.File)
      (r : Result (Unit {0}) O.IoError × O.World)
      → Holds file r.1
      → Took (with_dir O cfg path file r)
  unfolding with_dir
  with_dir-Took cfg path file (ok _, w) h =
      with_env-Took cfg file (O.open_env cfg.lmdb_map_size_bytes 4 path w)
        (still file (L.open_env cfg.lmdb_map_size_bytes 4 path w) h)
  with_dir-Took cfg path file (err e, w) h = L.close_held file w p h

  -- The lock file with its lock, or no lock at all.
  abbrev pub Acquired : Result O.File O.IoError × O.World → Type 0
  Acquired (ok file, w) = Holds file w
  Acquired (err e, w) = X.holder w p ≡ none

  pub with_lock-Took :
      (cfg : DurableOpenGateConfig) (path : O.FilePath) (r : Result O.File O.IoError × O.World)
      → Acquired r
      → Took (with_lock O cfg path r)
  unfolding with_lock
  with_lock-Took cfg path (err e, w) h = h
  with_lock-Took cfg path (ok file, w) h =
      if-cases Took (cfg.window == 0) _ _ (L.close_held file w p h) (
        if-cases Took (ltb cfg.lmdb_map_size_bytes (1024 * 1024)) _ _ (L.close_held file w p h) (
          with_dir-Took cfg path file (O.create_dir_all path w)
            (still file (L.create_dir path w) h)))

  lock_file-Acquired :
      (file : O.File) (w : O.World)
      → X.file_path file ≡ p
      → X.holder w p ≡ none
      → (r : Result (Unit {0}) O.IoError × O.World) → Locked X file w r
      → Acquired (lock_file O file r)
  unfolding lock_file
  lock_file-Acquired file w at free (ok _, w') (_, taken) =
      subst (λ q. X.holder w' q ≡ some file) at taken
  lock_file-Acquired file w at free (err e, w') same =
      let free' : X.holder w' p ≡ none = ap (λ f. f p) same ∙ free in
      L.close_file file w' p (λ h. cc (h, free')) ∙ free'

  pub lock_opened-Acquired :
      (w : O.World)
      → X.holder w p ≡ none
      → (r : Result O.File O.IoError × O.World) → FileOpened X p w r
      → Acquired (lock_opened O r)
  unfolding lock_opened
  lock_opened-Acquired w free (err e, w') same = ap (λ f. f p) same ∙ free
  lock_opened-Acquired w free (ok file, w') (same, at, fresh) =
      lock_file-Acquired file w' at (ap (λ f. f p) same ∙ free) (O.try_lock_exclusive file w')
        (L.try_lock file w')
