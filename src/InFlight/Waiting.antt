-- ===== src/InFlight/Waiting.antt =====
-- Who waits in the carriers of src/in_flight.rs, and who is answered.
use mathlib.Core.List.{Perm, append_assoc, perm_middle, perm_append_comm}
use mathlib.Core.List.Perm
use shared_rate_limiter.Base.{
  ◌≡◌, refl, sym, ap, subst, ◌∙◌, Result, ok, err, List, [], ◌∷◌, ◌++◌, nat_eq,
}
use shared_rate_limiter.Types.{Duration, Permit, Deny}
use shared_rate_limiter.Config.{Config}
use shared_rate_limiter.Limiter.State.{RateLimiter}
use shared_rate_limiter.Limiter.Acquire.{try_acquire}
use shared_rate_limiter.InFlight.Waiters
use shared_rate_limiter.InFlight.Waiters.{into_vec-push}
use shared_rate_limiter.InFlight.Carrier
use shared_rate_limiter.InFlight.Carrier.{LimiterInFlight}
use shared_rate_limiter.InFlight.Fleet.{
  Fleet, Slot, carried, dropped, waiting, waiting_of, start, sent, settled, Call, sends, joins,
  completes, finalizes, expires, feeds, updates, Run, here, next,
}

module _ {ℓ} {W : Type ℓ} where
  waiting-append : (xs ys : List (Slot W)) → waiting (xs ++ ys) ≡ waiting xs ++ waiting ys
  waiting-append [] ys = refl
  waiting-append (x ∷ xs) ys =
      ap (λ ws. waiting_of x ++ ws) (waiting-append xs ys)
      ∙ sym (append_assoc (waiting_of x) (waiting xs) (waiting ys))

  -- The waiters that were taken are those who are answered and those who wait, in some order.
  abbrev pub Accounts : Fleet W → Type ℓ
  Accounts f = Perm f.taken (f.answered ++ waiting f.slots)

  -- Who joins is one more.
  join_lem :
      (w : W) (t a b v c : List W)
      → Perm t (a ++ (b ++ (v ++ c)))
      → Perm (w ∷ t) (a ++ (b ++ ((v ++ w ∷ []) ++ c)))
  join_lem w t a b v c p =
      let flat : (ws : List W) → a ++ (b ++ (v ++ ws)) ≡ (a ++ (b ++ v)) ++ ws =
        λ ws. ap (λ x. a ++ x) (sym (append_assoc b v ws)) ∙ sym (append_assoc a (b ++ v) ws) in
      rw (append_assoc v (w ∷ []) c, flat)
        (Perm.trans (Perm.cons w (subst (Perm t) (flat c) p))
          (Perm.symm (perm_middle (a ++ (b ++ v)) c)))

  -- Who is answered waits no longer.
  answer_lem : (t a b v c : List W) → Perm t (a ++ (b ++ (v ++ c))) → Perm t ((a ++ v) ++ (b ++ c))
  answer_lem t a b v c p =
      let swapped : Perm (b ++ (v ++ c)) (v ++ (b ++ c)) =
        rw (← append_assoc b v c, ← append_assoc v b c)
          (Perm.append_right c (perm_append_comm b v)) in
      rw (append_assoc a v (b ++ c)) (Perm.trans p (Perm.append_left a swapped))

  module _ (f : Fleet W) (before : List (Slot W)) (e : LimiterInFlight W) (after : List (Slot W))
      (at : f.slots ≡ before ++ carried e ∷ after) (h : Accounts f) where
    spread :
        Perm f.taken
          (f.answered ++ (waiting before ++ (Waiters.into_vec e.waiters ++ waiting after)))
    spread =
        subst (λ ws. Perm f.taken (f.answered ++ ws))
          (ap waiting at ∙ waiting-append before (carried e ∷ after)) h

    joined-Accounts :
        (w : W)
        → Accounts
            (record f { slots = before ++ carried (Carrier.join e w) ∷ after; taken = w ∷ f.taken })
    unfolding Carrier.join
    joined-Accounts w =
        rw (waiting-append before (carried (Carrier.join e w) ∷ after), into_vec-push e.waiters w)
          (join_lem w f.taken f.answered (waiting before) (Waiters.into_vec e.waiters)
            (waiting after) spread)

    completed-Accounts : Accounts (record f {
      slots = before ++ dropped e.permit ∷ after;
      answered = f.answered ++ Carrier.complete e;
    })
    unfolding Carrier.complete
    completed-Accounts = rw (waiting-append before (dropped e.permit ∷ after)) (
        answer_lem f.taken f.answered (waiting before) (Waiters.into_vec e.waiters) (waiting after)
          spread)

    settled-Accounts :
        (rl : RateLimiter) → Accounts (settled f before after (Waiters.into_vec e.waiters, rl))
    settled-Accounts rl = rw (waiting-append before after) (
        answer_lem f.taken f.answered (waiting before) (Waiters.into_vec e.waiters) (waiting after)
          spread)

  sent-Accounts :
      (f : Fleet W) (deadline : Duration) (w : W) (r : Result Permit Deny × RateLimiter)
      → Accounts f
      → Accounts (sent f deadline w r)
  unfolding Carrier.new Waiters.into_vec
  sent-Accounts f deadline w (ok p, rl) h =
      Perm.trans (Perm.cons w h) (Perm.symm (perm_middle f.answered (waiting f.slots)))
  sent-Accounts f deadline w (err deny, rl) h = h

  Call-Accounts : {f g : Fleet W} → Call f g → Accounts f → Accounts g
  unfolding Carrier.finalize Carrier.expire
  Call-Accounts {f} (sends route_key cost now deadline w valid fits is) h =
      subst Accounts (sym is)
        (sent-Accounts f deadline w (try_acquire f.limiter route_key cost now) h)
  Call-Accounts {f} (joins before e after w at is) h =
      subst Accounts (sym is) (joined-Accounts f before e after at h w)
  Call-Accounts {f} (completes before e after at is) h =
      subst Accounts (sym is) (completed-Accounts f before e after at h)
  Call-Accounts {f} (finalizes before e after outcome now at is) h =
      subst Accounts (sym is)
        (settled-Accounts f before e after at h (Carrier.settle f.limiter e.permit outcome now))
  Call-Accounts {f} (expires before e after policy now at is) h = subst Accounts (sym is) (
      settled-Accounts f before e after at h (Carrier.settle_expired f.limiter e.permit policy now))
  Call-Accounts (feeds route_key feedback now is) h = subst Accounts (sym is) h
  Call-Accounts (updates cfg now valid is) h = subst Accounts (sym is) h

  -- Whatever calls are made on a new limiter through carriers, no waiter is lost and none is answered
  -- twice: those that the carriers have taken are, in some order, those that were handed out and those
  -- that still wait in a carrier.
  pub Run-Accounts :
      (cfg : Config) (started_at : Duration) {f : Fleet W}
      → Run (start cfg started_at) f
      → Perm f.taken (f.answered ++ waiting f.slots)
  Run-Accounts cfg started_at here = Perm.refl []
  Run-Accounts cfg started_at (next r c) = Call-Accounts c (Run-Accounts cfg started_at r)
