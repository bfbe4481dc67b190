-- ===== src/Gate/Stored.antt =====
-- src/durable_open_gate.rs: what `read_lock_until_ms_ro` and `read_lock_until_ms_rw` find of the
-- record in the database.
use Prim.Native.String.{String}
use shared_rate_limiter.Base.{ℕ, ◌≡◌, ap, ◌∙◌, Option, none, some, Result, ok, err}
use shared_rate_limiter.Gate.Types.{OpenGateRecordV1}
use shared_rate_limiter.Gate.Outside.{Outside}
use shared_rate_limiter.Gate.Open.{DurableOpenGate, Failure, decoded, decode_lock}
use shared_rate_limiter.Gate.Lawful.{View, Got}

module _ (O : Outside) where
  abbrev pub record_lock : Result OpenGateRecordV1 String → ℕ
  record_lock (ok r) = r.lock_until_ms
  record_lock (err e) = 0

  -- The lock that some bytes stand for, 0 if there are none or they do not decode.
  abbrev pub lock_in : Option O.Bytes → ℕ
  lock_in none = 0
  lock_in (some bytes) = record_lock (O.from_bytes bytes)

module _ (O : Outside) (V : View O) where
  abbrev pub persisted : DurableOpenGate O → O.World → ℕ
  persisted g w = lock_in O (V.stored w (V.env_path g.env) (V.db_name g.db) g.cfg.record_key)

  module _ (g : DurableOpenGate O) (w : O.World) where
    -- A read that succeeds found the stored lock.
    abbrev pub Read : Result ℕ (Failure O) → Type 0
    Read (ok found) = found ≡ persisted g w
    Read (err e) = Unit

    decoded-Read :
        (r : Result OpenGateRecordV1 String) → record_lock O r ≡ persisted g w → Read (decoded O r)
    unfolding decoded
    decoded-Read (ok r) h = h
    decoded-Read (err e) h = tt

    pub decode_lock-Read :
        (txn : O.Txn) (w₁ : O.World)
        → V.seen txn w₁ ≡ V.stored w (V.env_path g.env)
        → (r : Result (Option O.Bytes) O.HeedError)
        → Got V (V.seen txn w₁ (V.db_name g.db) g.cfg.record_key) r
        → Read (decode_lock O r)
    unfolding decode_lock
    decode_lock-Read txn w₁ snapshot (err e) h = tt
    decode_lock-Read txn w₁ snapshot (ok none) h =
        ap (lock_in O) (h ∙ ap (λ s. s (V.db_name g.db) g.cfg.record_key) snapshot)
    decode_lock-Read txn w₁ snapshot (ok (some raw)) h =
        decoded-Read (O.from_bytes raw)
          (ap (lock_in O) (h ∙ ap (λ s. s (V.db_name g.db) g.cfg.record_key) snapshot))

  -- A gate with the handles and the configuration of another finds the same lock.
  pub persisted_same :
      (g h : DurableOpenGate O) (w : O.World)
      → h.env ≡ g.env
      → h.db ≡ g.db
      → h.cfg ≡ g.cfg
      → persisted h w ≡ persisted g w
  persisted_same g h w env db cfg =
      ap (λ e. lock_in O (V.stored w (V.env_path e) (V.db_name h.db) h.cfg.record_key)) env
      ∙ ap (λ d. lock_in O (V.stored w (V.env_path g.env) (V.db_name d) h.cfg.record_key)) db
      ∙ ap (λ c. lock_in O (V.stored w (V.env_path g.env) (V.db_name g.db) c.record_key)) cfg
