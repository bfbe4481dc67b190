-- ===== src/Gate/Open.antt =====
-- src/durable_open_gate.rs: the gate, `FileLock::acquire`, the read of the stored lock, and `open`.
use Prim.Native.String.{String}
use shared_rate_limiter.Base.{ℕ, ◌*◌, if◌then◌else◌, ltb, ◌==◌, Option, none, some, Result, ok, err}
use shared_rate_limiter.Gate.Types.{
  DurableOpenGateConfig, OpenGateStats, default_stats, DurableOpenGateError, invalid_config, io,
  heed, decode, already_locked, OpenGateRecordV1, count_read, count_failure,
}
use shared_rate_limiter.Gate.Outside.{Outside}

pub record DurableOpenGate (O : Outside) : Type 0 where
  pub file_lock : O.File
  pub env : O.Env
  pub db : O.Db
  pub cfg : DurableOpenGateConfig
  pub cached_lock_until_ms : ℕ
  pub stats : OpenGateStats

abbrev pub Failure : Outside → Type 0
Failure O = DurableOpenGateError O.IoError O.HeedError

module _ (O : Outside) where
  -- A file that is open and not locked is dropped.
  unfoldable pub lock_file :
      O.File → Result (Unit {0}) O.IoError × O.World → Result O.File O.IoError × O.World
  lock_file file (ok _, w) = (ok file, w)
  lock_file file (err e, w) = (err e, O.close_file file w)

  unfoldable pub lock_opened : Result O.File O.IoError × O.World → Result O.File O.IoError × O.World
  unfolding lock_file
  lock_opened (ok file, w) = lock_file file (O.try_lock_exclusive file w)
  lock_opened (err e, w) = (err e, w)

  -- `FileLock::acquire`.
  unfoldable pub acquire_file_lock : O.FilePath → O.World → Result O.File O.IoError × O.World
  unfolding lock_opened
  acquire_file_lock path w = lock_opened (O.open_file (O.join path ".open_gate.lock") w)

  unfoldable pub decoded : Result OpenGateRecordV1 String → Result ℕ (Failure O)
  decoded (ok r) = ok r.lock_until_ms
  decoded (err e) = err (decode e)

  -- What is stored, decoded: `read_lock_until_ms_ro` and `read_lock_until_ms_rw`.
  unfoldable pub decode_lock : Result (Option O.Bytes) O.HeedError → Result ℕ (Failure O)
  unfolding decoded
  decode_lock (err e) = err (heed e)
  decode_lock (ok none) = ok 0
  decode_lock (ok (some raw)) = decoded (O.from_bytes raw)

  unfoldable pub read_lock_until_ms : DurableOpenGate O → O.Txn → O.World → Result ℕ (Failure O)
  unfolding decode_lock
  read_lock_until_ms g txn w = decode_lock (O.get g.db txn g.cfg.record_key w)

  -- `load_lock_until_ms` behind the start of its transaction, which is dropped at the end.
  unfoldable pub load_in :
      DurableOpenGate O
      → Result O.Txn O.HeedError × O.World
      → Result ℕ (Failure O) × DurableOpenGate O × O.World
  unfolding read_lock_until_ms count_read
  load_in g (err e, w) = (err (heed e), g, w)
  load_in g (ok txn, w) =
      (read_lock_until_ms g txn w, record g { stats = count_read g.stats }, O.abort txn w)

  unfoldable pub load_lock_until_ms :
      DurableOpenGate O → O.World → Result ℕ (Failure O) × DurableOpenGate O × O.World
  unfolding load_in
  load_lock_until_ms g w = load_in g (O.read_txn g.env w)

  -- The drop of a gate: its fields in their order.
  unfoldable pub drop_gate : DurableOpenGate O → O.World → O.World
  drop_gate g w = O.close_env g.env (O.close_file g.file_lock w)

  -- The end of `open`: a gate that is not returned is dropped, its fields in their order.
  unfoldable pub loaded :
      Result ℕ (Failure O) × DurableOpenGate O × O.World
      → Result (DurableOpenGate O) (Failure O) × O.World
  unfolding count_failure drop_gate
  loaded (ok value, g, w) = (ok (record g { cached_lock_until_ms = value }), w)
  loaded (err e, g, w) =
      if g.cfg.fail_closed
      then (err e, drop_gate g w)
      else (ok (record g { stats = count_failure g.stats }), w)

  -- The database is created in a transaction of its own.
  unfoldable pub committed_db :
      O.Db → Result (Unit {0}) O.HeedError × O.World → Result O.Db (Failure O) × O.World
  committed_db db (ok _, w) = (ok db, w)
  committed_db db (err e, w) = (err (heed e), w)

  unfoldable pub created_db :
      O.Txn → Result O.Db O.HeedError × O.World → Result O.Db (Failure O) × O.World
  unfolding committed_db
  created_db txn (ok db, w) = committed_db db (O.commit txn w)
  created_db txn (err e, w) = (err (heed e), O.abort txn w)

  unfoldable pub create_db :
      O.Env → String → Result O.Txn O.HeedError × O.World → Result O.Db (Failure O) × O.World
  unfolding created_db
  create_db env name (ok txn, w) = created_db txn (O.create_database env txn name w)
  create_db env name (err e, w) = (err (heed e), w)

  unfoldable pub new_gate : DurableOpenGateConfig → O.File → O.Env → O.Db → DurableOpenGate O
  new_gate cfg file env db = record {
    file_lock = file;
    env = env;
    db = db;
    cfg = cfg;
    cached_lock_until_ms = 0;
    stats = default_stats;
  }

  -- The steps of `open`, from the last to the first. An error drops what is there, the environment
  -- before the file.
  unfoldable pub with_db :
      DurableOpenGateConfig
      → O.File
      → O.Env
      → Result O.Db (Failure O) × O.World
      → Result (DurableOpenGate O) (Failure O) × O.World
  unfolding new_gate load_lock_until_ms loaded
  with_db cfg file env (ok db, w) = loaded (load_lock_until_ms (new_gate cfg file env db) w)
  with_db cfg file env (err e, w) = (err e, O.close_file file (O.close_env env w))

  unfoldable pub with_env :
      DurableOpenGateConfig
      → O.File
      → Result O.Env O.HeedError × O.World
      → Result (DurableOpenGate O) (Failure O) × O.World
  unfolding create_db with_db
  with_env cfg file (ok env, w) =
      with_db cfg file env (create_db env cfg.db_name (O.write_txn env w))
  with_env cfg file (err e, w) = (err (heed e), O.close_file file w)

  unfoldable pub with_dir :
      DurableOpenGateConfig
      → O.FilePath
      → O.File
      → Result (Unit {0}) O.IoError × O.World
      → Result (DurableOpenGate O) (Failure O) × O.World
  unfolding with_env
  with_dir cfg path file (ok _, w) = with_env cfg file (O.open_env cfg.lmdb_map_size_bytes 4 path w)
  with_dir cfg path file (err e, w) = (err (io e), O.close_file file w)

  unfoldable pub with_lock :
      DurableOpenGateConfig
      → O.FilePath
      → Result O.File O.IoError × O.World
      → Result (DurableOpenGate O) (Failure O) × O.World
  unfolding with_dir
  with_lock cfg path (err e, w) = (err (if O.would_block e then already_locked else io e), w)
  with_lock cfg path (ok file, w) =
      if cfg.window == 0
      then (err (invalid_config "window must be non-zero"), O.close_file file w)
      else if ltb cfg.lmdb_map_size_bytes (1024 * 1024)
      then (err (invalid_config "lmdb_map_size_bytes must be at least 1 MiB"), O.close_file file w)
      else with_dir cfg path file (O.create_dir_all path w)

  -- `DurableOpenGate::open`.
  unfoldable pub open_gate :
      O.FilePath
      → DurableOpenGateConfig
      → O.World
      → Result (DurableOpenGate O) (Failure O) × O.World
  unfolding acquire_file_lock with_lock
  open_gate path cfg w = with_lock cfg path (acquire_file_lock path w)
