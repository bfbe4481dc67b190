-- ===== src/Tests/Memory.antt =====
-- A database in memory for src/durable_open_gate.rs: a file lock, and records under a path, a database
-- and a key.
use Prim.Native.String.{String, ◌++◌ as ◌<>◌}
use text.Mathlib.Text.{◌==◌}
use text.Mathlib.TextPositions.{eq_refl}
use text.Mathlib.TextEquality.{eq_iff}
use shared_rate_limiter.Base.{
  ℕ, ◌+◌, ◌≡◌, ◌≢◌, arith, ap, Bool-cases, inl, inr, nat_eq, refl, sym, true, if◌then◌else◌, Option,
  none, some, Result, ok, err,
}
use shared_rate_limiter.Gate.Types.{OpenGateRecordV1}
use shared_rate_limiter.Gate.Outside.{Outside}
use shared_rate_limiter.Gate.Lawful.{View, IsLawful}
use shared_rate_limiter.Gate.Locks.{Locks, Locked, IsExclusive}
use shared_rate_limiter.Gate.Health.{IsHealthy}

pub record Memory : Type 0 where
  pub disk : String → String → String → Option OpenGateRecordV1
  pub draft : String → String → Option OpenGateRecordV1
  pub locks : String → Option ℕ

abbrev pub empty : Memory
empty = record { disk = λ p n k. none; draft = λ n k. none; locks = λ p. none }

-- A handle of a file has a number that the holder of the file's lock does not have.
abbrev fresh : Option ℕ → ℕ
fresh none = 0
fresh (some n) = n + 1

abbrev granted : String × ℕ → Memory → Option ℕ → Result (Unit {0}) (Unit {0}) × Memory
granted (path, n) w none =
    (ok tt, record w { locks = λ p. if p == path then some n else w.locks p })
granted (path, n) w (some m) = (err tt, w)

abbrev released : ℕ → Option ℕ → Option ℕ
released n none = none
released n (some m) = if nat_eq.beq m n then none else some m

abbrev closed : String × ℕ → Memory → Memory
closed (path, n) w = record w {
  locks = λ p. if p == path then released n (w.locks p) else w.locks p;
}

abbrev pub memory : Outside
memory = record {
  World = Memory;
  FilePath = String;
  File = String × ℕ;
  Env = String;
  Db = String;
  Txn = String;
  Bytes = OpenGateRecordV1;
  IoError = Unit;
  HeedError = Unit;
  join = ◌<>◌;
  open_file = λ path w. (ok (path, fresh (w.locks path)), w);
  try_lock_exclusive = λ file w. granted file w (w.locks file.0);
  close_file = closed;
  would_block = λ e. true;
  create_dir_all = λ path w. (ok tt, w);
  open_env = λ size dbs path w. (ok path, w);
  close_env = λ env w. w;
  write_txn = λ env w. (ok env, record w { draft = w.disk env });
  read_txn = λ env w. (ok env, record w { draft = w.disk env });
  create_database = λ env txn name w. (ok name, w);
  commit = λ txn w. (ok tt, record w { disk = λ p. if p == txn then w.draft else w.disk p });
  abort = λ txn w. w;
  get = λ db txn key w. ok (w.draft db key);
  put = λ db txn key bytes w. (
    ok tt,
    record w {
      draft =
          λ n k. if n == db then (if k == key then some bytes else w.draft n k) else w.draft n k;
    },
  );
  to_bytes = λ r. ok r;
  from_bytes = λ bytes. ok bytes;
}

abbrev pub view : View memory
view = record {
  stored = λ w. w.disk;
  seen = λ txn w. w.draft;
  env_path = λ env. env;
  txn_path = λ txn. txn;
  db_name = λ db. db;
}

granted-disk : (file : String × ℕ) (w : Memory) (o : Option ℕ) → (granted file w o).1.disk ≡ w.disk
granted-disk file w none = refl
granted-disk file w (some m) = refl

pub memory-IsLawful : IsLawful memory view
memory-IsLawful = record {
  open_file = λ path w. refl;
  try_lock = λ file w. granted-disk file w (w.locks file.0);
  close_file = λ file w. refl;
  create_dir = λ path w. refl;
  open_env = λ size dbs path w. (refl, refl);
  close_env = λ env w. refl;
  write_txn = λ env w. (refl, refl, refl);
  read_txn = λ env w. (refl, refl, refl);
  create_database = λ env txn name w. (refl, refl, refl);
  commit = λ txn w. rw (eq_refl txn) refl;
  abort = λ txn w. refl;
  get = λ db txn key w. refl;
  put = λ db txn key bytes w. (refl, rw (eq_refl db) (rw (eq_refl key) refl));
  round_trip = λ r bytes h. sym h;
}

pub memory-IsHealthy : IsHealthy memory
memory-IsHealthy = record {
  write_txn = λ env w. (env, refl);
  get = λ db txn key w. (w.draft db key, refl);
  put = λ db txn key bytes w. (tt, refl);
  commit = λ txn w. (tt, refl);
  to_bytes = λ r. (r, refl);
  from_bytes = λ bytes. (bytes, refl);
}

abbrev handle : String → Option ℕ → Option (String × ℕ)
handle path none = none
handle path (some n) = some (path, n)

abbrev pub locks : Locks memory
locks = record { file_path = λ file. file.0; holder = λ w path. handle path (w.locks path) }

fresh_lem : (path : String) (o : Option ℕ) → handle path o ≢ some (path, fresh o)
fresh_lem path none h = cc h
fresh_lem path (some n) h =
    omega (arith, ap (λ o. elim o as (λ _. ℕ) [ none ↦ 0 | some file ↦ file.1 ]) h)

granted-Locked :
    (file : String × ℕ) (w : Memory) (o : Option ℕ)
    → w.locks file.0 ≡ o
    → Locked locks file w (granted file w o)
granted-Locked (path, n) w none e = (rw e refl, rw (eq_refl path) refl)
granted-Locked (path, n) w (some m) e = refl

released-other :
    (path q : String) (n : ℕ) (o : Option ℕ)
    → path ≡ q
    → handle path o ≢ some (q, n)
    → released n o ≡ o
released-other path q n none at apart = refl
released-other path q n (some m) at apart = elim (Bool-cases (nat_eq.beq m n)) [
  | inl same ↦ absurd (apart (cc (at, (nat_eq.beq_iff m n).0 same)))
  | inr other ↦ rw other refl
]

released-held :
    (path q : String) (n : ℕ) (o : Option ℕ)
    → handle path o ≡ some (q, n)
    → (path ≡ q) × (released n o ≡ none)
released-held path q n none held = absurd (cc held)
released-held path q n (some m) held =
    let same : m ≡ n = ap (λ x. elim x as (λ _. ℕ) [ none ↦ 0 | some file ↦ file.1 ]) held in
    (
      ap (λ x. elim x as (λ _. String) [ none ↦ q | some file ↦ file.0 ]) held,
      rw ((nat_eq.beq_iff m n).1 same) refl,
    )

closed-other :
    (file : String × ℕ) (w : Memory) (path : String)
    → handle path (w.locks path) ≢ some file
    → handle path ((closed file w).locks path) ≡ handle path (w.locks path)
closed-other (q, n) w path apart = elim (Bool-cases (path == q)) [
  | inl at ↦ rw (at, released-other path q n (w.locks path) ((eq_iff path q).0 at) apart) refl
  | inr elsewhere ↦ rw elsewhere refl
]

closed-held :
    (file : String × ℕ) (w : Memory) (path : String)
    → handle path (w.locks path) ≡ some file
    → handle path ((closed file w).locks path) ≡ none
closed-held (q, n) w path held =
    let (at, free) = released-held path q n (w.locks path) held in
    rw ((eq_iff path q).1 at, free) refl

pub memory-IsExclusive : IsExclusive memory locks
memory-IsExclusive = record {
  open_file = λ path w. (refl, refl, fresh_lem path (w.locks path));
  try_lock = λ file w. granted-Locked file w (w.locks file.0) refl;
  try_lock_held = λ file other w held fails. refl;
  close_file = closed-other;
  close_held = closed-held;
  create_dir = λ path w. refl;
  open_env = λ size dbs path w. refl;
  close_env = λ env w. refl;
  write_txn = λ env w. refl;
  read_txn = λ env w. refl;
  create_database = λ env txn name w. refl;
  commit = λ txn w. refl;
  abort = λ txn w. refl;
  put = λ db txn key bytes w. refl;
}
