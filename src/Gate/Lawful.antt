-- ===== src/Gate/Lawful.antt =====
-- What src/durable_open_gate.rs relies on in LMDB and rkyv: transactions see what is stored and their
-- own writes, a commit stores what its transaction sees or fails, nothing else changes what is
-- stored, and a record that was encoded is decoded again.
use Prim.Native.String.{String}
use shared_rate_limiter.Base.{ℕ, Option, some, ◌≡◌, ◌⊎◌, Result, ok, err}
use shared_rate_limiter.Gate.Types.{OpenGateRecordV1}
use shared_rate_limiter.Gate.Outside.{Outside}

-- How to look at the system: what is stored under a path, a database and a key, what a transaction
-- sees, and what the handles stand for.
pub record View (O : Outside) : Type 0 where
  pub stored : O.World → O.FilePath → String → String → Option O.Bytes
  pub seen : O.Txn → O.World → String → String → Option O.Bytes
  pub env_path : O.Env → O.FilePath
  pub txn_path : O.Txn → O.FilePath
  pub db_name : O.Db → String

module _ {O : Outside} (V : View O) where
  abbrev pub Began : O.Env → O.World → Result O.Txn O.HeedError × O.World → Type 0
  Began env w (ok txn, w') =
      (V.stored w' ≡ V.stored w)
      × (V.txn_path txn ≡ V.env_path env)
      × (V.seen txn w' ≡ V.stored w (V.env_path env))
  Began env w (err e, w') = V.stored w' ≡ V.stored w

  abbrev pub Got : Option O.Bytes → Result (Option O.Bytes) O.HeedError → Type 0
  Got seen (ok found) = found ≡ seen
  Got seen (err e) = Unit

  abbrev pub Put :
      String → O.Txn → String → O.Bytes → O.World → Result (Unit {0}) O.HeedError × O.World → Type 0
  Put name txn key bytes w (ok _, w') =
      (V.stored w' ≡ V.stored w) × (V.seen txn w' name key ≡ some bytes)
  Put name txn key bytes w (err e, w') = V.stored w' ≡ V.stored w

  -- A commit that fails has stored all of its transaction or nothing.
  abbrev pub Committed : O.Txn → O.World → Result (Unit {0}) O.HeedError × O.World → Type 0
  Committed txn w (ok _, w') = V.stored w' (V.txn_path txn) ≡ V.seen txn w
  Committed txn w (err e, w') =
      (V.stored w' (V.txn_path txn) ≡ V.stored w (V.txn_path txn))
      ⊎ (V.stored w' (V.txn_path txn) ≡ V.seen txn w)

  abbrev pub Created : String → O.Txn → O.World → Result O.Db O.HeedError × O.World → Type 0
  Created name txn w (ok db, w') =
      (V.stored w' ≡ V.stored w) × (V.seen txn w' ≡ V.seen txn w) × (V.db_name db ≡ name)
  Created name txn w (err e, w') = V.stored w' ≡ V.stored w

  abbrev pub Opened : O.FilePath → O.World → Result O.Env O.HeedError × O.World → Type 0
  Opened path w (ok env, w') = (V.stored w' ≡ V.stored w) × (V.env_path env ≡ path)
  Opened path w (err e, w') = V.stored w' ≡ V.stored w

pub record IsLawful (O : Outside) (V : View O) : Type 0 where
  pub open_file : (path : O.FilePath) (w : O.World) → V.stored (O.open_file path w).1 ≡ V.stored w
  pub try_lock :
      (file : O.File) (w : O.World) → V.stored (O.try_lock_exclusive file w).1 ≡ V.stored w
  pub close_file : (file : O.File) (w : O.World) → V.stored (O.close_file file w) ≡ V.stored w
  pub create_dir :
      (path : O.FilePath) (w : O.World) → V.stored (O.create_dir_all path w).1 ≡ V.stored w
  pub open_env :
      (size dbs : ℕ) (path : O.FilePath) (w : O.World)
      → Opened V path w (O.open_env size dbs path w)
  pub close_env : (env : O.Env) (w : O.World) → V.stored (O.close_env env w) ≡ V.stored w
  pub write_txn : (env : O.Env) (w : O.World) → Began V env w (O.write_txn env w)
  pub read_txn : (env : O.Env) (w : O.World) → Began V env w (O.read_txn env w)
  pub create_database :
      (env : O.Env) (txn : O.Txn) (name : String) (w : O.World)
      → Created V name txn w (O.create_database env txn name w)
  pub commit : (txn : O.Txn) (w : O.World) → Committed V txn w (O.commit txn w)
  pub abort : (txn : O.Txn) (w : O.World) → V.stored (O.abort txn w) ≡ V.stored w
  pub get :
      (db : O.Db) (txn : O.Txn) (key : String) (w : O.World)
      → Got V (V.seen txn w (V.db_name db) key) (O.get db txn key w)
  pub put :
      (db : O.Db) (txn : O.Txn) (key : String) (bytes : O.Bytes) (w : O.World)
      → Put V (V.db_name db) txn key bytes w (O.put db txn key bytes w)
  pub round_trip :
      (r : OpenGateRecordV1) (bytes : O.Bytes) → O.to_bytes r ≡ ok bytes → O.from_bytes bytes ≡ ok r
