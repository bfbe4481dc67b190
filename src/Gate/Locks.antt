-- ===== src/Gate/Locks.antt =====
-- What src/durable_open_gate.rs relies on in file locks (fs2): a lock on a file that another handle has
-- locked fails with `WouldBlock`, a lock goes when its handle is dropped, and nothing else moves one.
use Prim.Native.String.{String}
use shared_rate_limiter.Base.{ℕ, Option, none, some, true, ◌≡◌, ◌≢◌, Result, ok, err}
use shared_rate_limiter.Gate.Outside.{Outside}

-- How to look at the locks: the path of an open file, and which open file has the lock of a path.
pub record Locks (O : Outside) : Type 0 where
  pub file_path : O.File → O.FilePath
  pub holder : O.World → O.FilePath → Option O.File

module _ {O : Outside} (X : Locks O) where
  -- A handle that has just been opened has no lock.
  abbrev pub FileOpened : O.FilePath → O.World → Result O.File O.IoError × O.World → Type 0
  FileOpened path w (ok file, w') =
      (X.holder w' ≡ X.holder w) × (X.file_path file ≡ path) × (X.holder w path ≢ some file)
  FileOpened path w (err e, w') = X.holder w' ≡ X.holder w

  abbrev pub Locked : O.File → O.World → Result (Unit {0}) O.IoError × O.World → Type 0
  Locked file w (ok _, w') =
      (X.holder w (X.file_path file) ≡ none) × (X.holder w' (X.file_path file) ≡ some file)
  Locked file w (err e, w') = X.holder w' ≡ X.holder w

pub record IsExclusive (O : Outside) (X : Locks O) : Type 0 where
  pub open_file : (path : O.FilePath) (w : O.World) → FileOpened X path w (O.open_file path w)
  pub try_lock : (file : O.File) (w : O.World) → Locked X file w (O.try_lock_exclusive file w)
  pub try_lock_held :
      (file other : O.File) (w : O.World) {e : O.IoError}
      → X.holder w (X.file_path file) ≡ some other
      → (O.try_lock_exclusive file w).0 ≡ err e
      → O.would_block e ≡ true
  pub close_file :
      (file : O.File) (w : O.World) (path : O.FilePath)
      → X.holder w path ≢ some file
      → X.holder (O.close_file file w) path ≡ X.holder w path
  pub close_held :
      (file : O.File) (w : O.World) (path : O.FilePath)
      → X.holder w path ≡ some file
      → X.holder (O.close_file file w) path ≡ none
  pub create_dir :
      (path : O.FilePath) (w : O.World) → X.holder (O.create_dir_all path w).1 ≡ X.holder w
  pub open_env :
      (size dbs : ℕ) (path : O.FilePath) (w : O.World)
      → X.holder (O.open_env size dbs path w).1 ≡ X.holder w
  pub close_env : (env : O.Env) (w : O.World) → X.holder (O.close_env env w) ≡ X.holder w
  pub write_txn : (env : O.Env) (w : O.World) → X.holder (O.write_txn env w).1 ≡ X.holder w
  pub read_txn : (env : O.Env) (w : O.World) → X.holder (O.read_txn env w).1 ≡ X.holder w
  pub create_database :
      (env : O.Env) (txn : O.Txn) (name : String) (w : O.World)
      → X.holder (O.create_database env txn name w).1 ≡ X.holder w
  pub commit : (txn : O.Txn) (w : O.World) → X.holder (O.commit txn w).1 ≡ X.holder w
  pub abort : (txn : O.Txn) (w : O.World) → X.holder (O.abort txn w) ≡ X.holder w
  pub put :
      (db : O.Db) (txn : O.Txn) (key : String) (bytes : O.Bytes) (w : O.World)
      → X.holder (O.put db txn key bytes w).1 ≡ X.holder w
