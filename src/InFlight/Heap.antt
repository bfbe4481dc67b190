-- ===== src/InFlight/Heap.antt =====
-- `HeapItem` of src/in_flight.rs and `std::collections::BinaryHeap` of reversed items: a queue whose
-- top is the least item. The queue is a list with the least item in front.
use shared_rate_limiter.Base.{ℕ, Bool, if◌then◌else◌, ltb, ◌==◌, ◌&&◌, ◌||◌, List, [], ◌∷◌}
use shared_rate_limiter.Types.{Duration}

-- Rust's `Ord`, as far as the heap asks.
pub record Ord {ℓ} (A : Type ℓ) : Type ℓ where
  pub lt : A → A → Bool

instance abbrev pub nat_ord : Ord ℕ
nat_ord = record { lt = ltb }

pub record HeapItem {ℓ} (I : Type ℓ) : Type ℓ where
  pub deadline : Duration
  pub seq : ℕ
  pub id : I

abbrev pub Heap {ℓ} : Type ℓ → Type ℓ
Heap I = List (HeapItem I)

module _ {ℓ} {I : Type ℓ} ⦃o : Ord I⦄ where
  -- `HeapItem::cmp` is `Less`: by deadline, then by sequence number, then by id.
  unfoldable pub item_lt : HeapItem I → HeapItem I → Bool
  item_lt a b =
      ltb a.deadline b.deadline
      || (a.deadline == b.deadline && (ltb a.seq b.seq || (a.seq == b.seq && o.lt a.id b.id)))

  unfoldable pub push : HeapItem I → Heap I → Heap I
  unfolding item_lt
  push x [] = x ∷ []
  push x (y ∷ h) = if item_lt x y then x ∷ y ∷ h else y ∷ push x h
