-- ===== src/InFlight/Waiters.antt =====
-- `Waiters` of src/in_flight.rs: who waits for a request, the first one stored inline.
use shared_rate_limiter.Base.{◌≡◌, refl, List, [], ◌∷◌, ◌++◌}

pub data Waiters {ℓ} (W : Type ℓ) : Type ℓ where
  one : W → Waiters W
  many : List W → Waiters W

module _ {ℓ} {W : Type ℓ} where
  unfoldable pub push : Waiters W → W → Waiters W
  push (one w₀) w = many (w₀ ∷ w ∷ [])
  push (many v) w = many (v ++ w ∷ [])

  unfoldable pub into_vec : Waiters W → List W
  into_vec (one w) = w ∷ []
  into_vec (many v) = v

  -- A waiter that joins comes last, whichever way the waiters are stored.
  pub into_vec-push : (ws : Waiters W) (w : W) → into_vec (push ws w) ≡ into_vec ws ++ w ∷ []
  unfolding push into_vec
  into_vec-push (one w₀) w = refl
  into_vec-push (many v) w = refl
