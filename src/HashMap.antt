-- ===== src/HashMap.antt =====
-- `std::collections::HashMap` as the crate uses it (src/hash.rs names it): an association list with
-- one entry for a key.
pub mod Laws
use shared_rate_limiter.Base.{
  ℕ, Bool, true, false, ◌||◌, if◌then◌else◌, Option, none, some, List, [], ◌∷◌, length, Eq, map,
}

abbrev pub HashMap {ℓ κ} : Type ℓ → Type κ → Type (ℓ ⊔ κ)
HashMap K V = List (K × V)

module _ {ℓ κ} {K : Type ℓ} {V : Type κ} where
  abbrev pub len : HashMap K V → ℕ
  len = length

  -- `values().any(p)`.
  unfoldable pub any_value : (V → Bool) → HashMap K V → Bool
  any_value p [] = false
  any_value p ((_, v) ∷ m) = p v || any_value p m

  -- A loop over `values_mut()`.
  unfoldable pub map_values : (V → V) → HashMap K V → HashMap K V
  map_values f [] = []
  map_values f ((k, v) ∷ m) = (k, f v) ∷ map_values f m

  abbrev pub keys : HashMap K V → List K
  keys [] = []
  keys ((k, _) ∷ m) = k ∷ keys m

module _ {ℓ κ} {K : Type ℓ} {V : Type κ} ⦃e : Eq K⦄ where
  unfoldable pub lookup : K → HashMap K V → Option V
  lookup k [] = none
  lookup k ((j, v) ∷ m) = if e.beq j k then some v else lookup k m

  unfoldable pub contains_key : K → HashMap K V → Bool
  contains_key k [] = false
  contains_key k ((j, _) ∷ m) = e.beq j k || contains_key k m

  unfoldable pub insert : K → V → HashMap K V → HashMap K V
  insert k v [] = (k, v) ∷ []
  insert k v ((j, w) ∷ m) = if e.beq j k then (j, v) ∷ m else (j, w) ∷ insert k v m

  unfoldable pub remove : K → HashMap K V → HashMap K V
  remove k [] = []
  remove k ((j, v) ∷ m) = if e.beq j k then m else (j, v) ∷ remove k m
