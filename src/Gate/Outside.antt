-- ===== src/Gate/Outside.antt =====
-- What src/durable_open_gate.rs uses of other crates, as parameters: files and their locks (std, fs2),
-- the LMDB environment (heed) and the encoding of a record (rkyv). An operation that may touch
-- the system takes the state of the system and returns it.
use Prim.Native.String.{String}
use shared_rate_limiter.Base.{ℕ, Bool, Option, Result}
use shared_rate_limiter.Gate.Types.{OpenGateRecordV1}

pub record Outside : Type 1 where
  pub World : Type 0
  pub FilePath : Type 0
  pub File : Type 0
  pub Env : Type 0
  pub Db : Type 0
  pub Txn : Type 0
  pub Bytes : Type 0
  pub IoError : Type 0
  pub HeedError : Type 0
  -- `Path::join`, `File::options()..open`, `FileExt::try_lock_exclusive`, the drop of a `File`.
  pub join : FilePath → String → FilePath
  pub open_file : FilePath → World → Result File IoError × World
  pub try_lock_exclusive : File → World → Result (Unit {0}) IoError × World
  pub close_file : File → World → World
  -- `err.kind() == io::ErrorKind::WouldBlock`.
  pub would_block : IoError → Bool
  pub create_dir_all : FilePath → World → Result (Unit {0}) IoError × World
  -- `EnvOpenOptions::new().map_size(..).max_dbs(..).open(..)`, and the drop of an `Env`.
  pub open_env : ℕ → ℕ → FilePath → World → Result Env HeedError × World
  pub close_env : Env → World → World
  pub write_txn : Env → World → Result Txn HeedError × World
  pub read_txn : Env → World → Result Txn HeedError × World
  pub create_database : Env → Txn → String → World → Result Db HeedError × World
  pub commit : Txn → World → Result (Unit {0}) HeedError × World
  -- The drop of a transaction.
  pub abort : Txn → World → World
  pub get : Db → Txn → String → World → Result (Option Bytes) HeedError
  pub put : Db → Txn → String → Bytes → World → Result (Unit {0}) HeedError × World
  -- rkyv, with the texts of its errors.
  pub to_bytes : OpenGateRecordV1 → Result Bytes String
  pub from_bytes : Bytes → Result OpenGateRecordV1 String
