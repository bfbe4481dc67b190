-- ===== src/InFlight/Refinement.antt =====
-- The carriers of src/in_flight.rs use the limiter as its callers are to use it.
use shared_rate_limiter.Base.{
  ◌≡◌, refl, sym, ap, subst, ◌∙◌, Result, ok, err, List, [], ◌∷◌, ◌++◌, nat_eq,
}
use shared_rate_limiter.Types.{Duration, Permit, Deny, Outcome, not_sent, sent_no_confirm}
use shared_rate_limiter.Config.{Config}
use shared_rate_limiter.Bucket.Ledger.{add_permit}
use shared_rate_limiter.Limiter.State.{RateLimiter}
use shared_rate_limiter.Limiter.Acquire.{try_acquire}
use shared_rate_limiter.Limiter.History
use shared_rate_limiter.Limiter.History.{World, Reach, IsSound, Reach-IsSound}
use shared_rate_limiter.InFlight.Carrier
use shared_rate_limiter.InFlight.Carrier.{
  LimiterInFlight, LimiterInFlightExpiryPolicy, commit_sent_no_confirm, refund,
}
use shared_rate_limiter.InFlight.Fleet.{
  Fleet, Slot, carried, dropped, permits, permit_of, start, sent, settled, Call, sends, joins,
  completes, finalizes, expires, feeds, updates, Run, here, next,
}

module _ {ℓ} {W : Type ℓ} where
  -- The limiter and the permits that are out.
  abbrev pub world : Fleet W → World
  world f = record { limiter = f.limiter; outstanding = permits f.slots }

  permits-append : (xs ys : List (Slot W)) → permits (xs ++ ys) ≡ permits xs ++ permits ys
  permits-append [] ys = refl
  permits-append (x ∷ xs) ys = ap (◌∷◌ (permit_of x)) (permits-append xs ys)

  -- The permit of a carrier among the permits.
  out_lem :
      (f : Fleet W) (before : List (Slot W)) (e : LimiterInFlight W) (after : List (Slot W))
      → f.slots ≡ before ++ carried e ∷ after
      → (world f).outstanding ≡ permits before ++ e.permit ∷ permits after
  out_lem f before e after at = ap permits at ∙ permits-append before (carried e ∷ after)

  -- A slot that keeps its permit keeps what is out.
  kept_lem :
      (f : Fleet W) (before : List (Slot W)) (e : LimiterInFlight W) (x : Slot W)
      (after : List (Slot W))
      → f.slots ≡ before ++ carried e ∷ after
      → permit_of x ≡ e.permit
      → world (record f { slots = before ++ x ∷ after }) ≡ world f
  kept_lem f before e x after at same =
      ap (λ ps. record { limiter = f.limiter; outstanding = ps })
        (permits-append before (x ∷ after)
          ∙ ap (λ p. permits before ++ p ∷ permits after) same
          ∙ sym (out_lem f before e after at))

  sent-world :
      (f : Fleet W) (deadline : Duration) (w : W) (r : Result Permit Deny × RateLimiter)
      → world (sent f deadline w r)
        ≡ record { limiter = r.1; outstanding = add_permit r.0 (permits f.slots) }
  unfolding Carrier.new
  sent-world f deadline w (ok p, rl) = refl
  sent-world f deadline w (err deny, rl) = refl

  settled-world :
      (f : Fleet W) (before after : List (Slot W)) (r : List W × RateLimiter)
      → world (settled f before after r)
        ≡ record { limiter = r.1; outstanding = permits before ++ permits after }
  settled-world f before after (ws, rl) =
      ap (λ ps. record { limiter = rl; outstanding = ps }) (permits-append before after)

  -- A carrier settles its permit by one call of the limiter.
  settle-Step :
      (f : Fleet W) (before : List (Slot W)) (e : LimiterInFlight W) (after : List (Slot W))
      (outcome : Outcome) (now : Duration)
      → f.slots ≡ before ++ carried e ∷ after
      → History.Step
          (world f)
          (world (settled f before after (Carrier.finalize e f.limiter outcome now)))
  unfolding Carrier.finalize Carrier.settle
  settle-Step f before e after not_sent now at =
      History.refunds (permits before) e.permit (permits after) now (out_lem f before e after at)
        (settled-world f before after (Carrier.finalize e f.limiter not_sent now))
  settle-Step f before e after outcome now at =
      History.commits (permits before) e.permit (permits after) outcome now
        (out_lem f before e after at)
        (settled-world f before after (Carrier.finalize e f.limiter outcome now))

  expire-Step :
      (f : Fleet W) (before : List (Slot W)) (e : LimiterInFlight W) (after : List (Slot W))
      (policy : LimiterInFlightExpiryPolicy) (now : Duration)
      → f.slots ≡ before ++ carried e ∷ after
      → History.Step
          (world f)
          (world (settled f before after (Carrier.expire e f.limiter policy now)))
  unfolding Carrier.expire Carrier.settle_expired
  expire-Step f before e after commit_sent_no_confirm now at =
      History.commits (permits before) e.permit (permits after) sent_no_confirm now
        (out_lem f before e after at)
        (settled-world f before after (Carrier.expire e f.limiter commit_sent_no_confirm now))
  expire-Step f before e after refund now at =
      History.refunds (permits before) e.permit (permits after) now (out_lem f before e after at)
        (settled-world f before after (Carrier.expire e f.limiter refund now))

  module _ {v : World} where
    Call-Reach : {f g : Fleet W} → Call f g → Reach v (world f) → Reach v (world g)
    unfolding Carrier.join
    Call-Reach {f} (sends route_key cost now deadline w valid fits at) r = History.next r (
        History.acquires route_key cost now valid fits
          (ap world at ∙ sent-world f deadline w (try_acquire f.limiter route_key cost now)))
    Call-Reach {f} (joins before e after w at is) r =
        subst (Reach v)
          (sym (ap world is ∙ kept_lem f before e (carried (Carrier.join e w)) after at refl)) r
    Call-Reach {f} (completes before e after at is) r =
        subst (Reach v) (sym (ap world is ∙ kept_lem f before e (dropped e.permit) after at refl)) r
    Call-Reach {f} (finalizes before e after outcome now at is) r =
        subst (Reach v) (sym (ap world is))
          (History.next r (settle-Step f before e after outcome now at))
    Call-Reach {f} (expires before e after policy now at is) r =
        subst (Reach v) (sym (ap world is))
          (History.next r (expire-Step f before e after policy now at))
    Call-Reach (feeds route_key feedback now is) r =
        History.next r (History.feeds route_key feedback now (ap world is))
    Call-Reach (updates cfg now valid is) r =
        History.next r (History.updates cfg now valid (ap world is))

  -- Whatever calls are made on a new limiter through carriers, with any times, outcomes and policies and
  -- the costs that are out within a `u64`, they are a history of the limiter in which each permit is
  -- finalized at most once: what is out then are the permits of the carriers that are left, and of
  -- those that were completed without the limiter.
  pub Run-Reach :
      (cfg : Config) (started_at : Duration) {f : Fleet W}
      → Run (start cfg started_at) f
      → Reach (History.start cfg started_at) (world f)
  Run-Reach cfg started_at here = History.here
  Run-Reach cfg started_at (next r c) = Call-Reach c (Run-Reach cfg started_at r)
