-- ===== src/Limiter/Remap.antt =====
-- The remap of a route in src/limiter.rs, as a principle for proofs.
use shared_rate_limiter.Base.{
  ℕ, Bool, true, false, not, leb, ◌&&◌, if◌then◌else◌, Option, none, some, nat_eq, if-cases,
}
use shared_rate_limiter.Types.{Key}
use shared_rate_limiter.HashMap
use shared_rate_limiter.HashMap.{HashMap}
use shared_rate_limiter.Limiter.State.{RateLimiter}
use shared_rate_limiter.Limiter.Feedback.{apply_route_remap, remap_route}

abbrev Remapped : Type 0
Remapped = Bool × RateLimiter

-- To prove something of the limiter that a remap leaves: only the map of the routes has changed.
pub remap-cases {ℓ} :
    (P : RateLimiter → Type ℓ) (rl : RateLimiter) (route_key : Key) (remap : Option Key)
    → P rl
    → ((routes : HashMap Key Key) → P (record rl { route_map = routes }))
    → P (remap_route rl route_key remap).1
unfolding remap_route apply_route_remap
remap-cases P rl route_key none same changed = same
remap-cases P rl route_key (some k) same changed = go rl.cfg.max_keys
  where
    routes : HashMap Key Key
    routes = HashMap.insert route_key k rl.route_map

    go :
        (o : Option ℕ)
        → P
            (elim o as (λ _. Remapped) [
              | none ↦ (true, record rl { route_map = routes })
              | some max_keys ↦
                  if leb max_keys (HashMap.len rl.route_map)
                    && not (HashMap.contains_key route_key rl.route_map)
                  then (false, rl)
                  else (true, record rl { route_map = routes })
            ]).1
    go none = changed routes
    go (some max_keys) =
        if-cases {A = Remapped} (λ r. P r.1) _ (false, rl) (true, record rl { route_map = routes })
          same (changed routes)
