-- ===== src/InFlight/Order.antt =====
-- The heap of src/in_flight.rs: the order of its deadlines, and which items it holds.
use shared_rate_limiter.Base.{
  ◌≤◌, ◌≡◌, refl, subst, ◌⊎◌, inl, inr, true, false, Bool-cases, if-cases, some, [], ◌∷◌, Eq, arith,
  All,
}
use shared_rate_limiter.Types.{Duration}
use shared_rate_limiter.HashMap
use shared_rate_limiter.HashMap.{HashMap, keys}
use shared_rate_limiter.InFlight.Heap
use shared_rate_limiter.InFlight.Heap.{Heap, HeapItem, Ord, item_lt}
use shared_rate_limiter.InFlight.Table.{EntryState, item_of, heap_of}

module _ {I : Type 0} where
  -- Each deadline is at most those behind it.
  abbrev pub IsSorted : Heap I → Type 0
  IsSorted [] = Unit
  IsSorted (x ∷ h) = All (λ y. x.deadline ≤ y.deadline) h × IsSorted h

  abbrev pub Holds : HeapItem I → Heap I → Type 0
  Holds x [] = ⊥
  Holds x (y ∷ h) = (x ≡ y) ⊎ Holds x h

  pub later_than :
      (d : Duration) (x : HeapItem I) (h : Heap I)
      → All (λ y. d ≤ y.deadline) h
      → Holds x h
      → d ≤ x.deadline
  later_than d x [] all m = elim m [ ]
  later_than d x (y ∷ h) all (inl e) = rw e all.0
  later_than d x (y ∷ h) all (inr m) = later_than d x h all.1 m

  pub first_least :
      (top : HeapItem I) (h : Heap I) (x : HeapItem I)
      → IsSorted (top ∷ h)
      → Holds x (top ∷ h)
      → top.deadline ≤ x.deadline
  first_least top h x s (inl q) = rw q (omega arith)
  first_least top h x s (inr m) = later_than top.deadline x h s.0 m

  All-earlier :
      (d e : Duration) (h : Heap I)
      → d ≤ e
      → All (λ y. e ≤ y.deadline) h
      → All (λ y. d ≤ y.deadline) h
  All-earlier d e [] le all = tt
  All-earlier d e (y ∷ h) le all = (omega (arith, le, all.0), All-earlier d e h le all.1)

module _ {I : Type 0} ⦃o : Ord I⦄ where
  item_lt-le :
      (x y : HeapItem I)
      → (item_lt x y ≡ true → x.deadline ≤ y.deadline)
        × (item_lt x y ≡ false → y.deadline ≤ x.deadline)
  unfolding item_lt
  item_lt-le x y = (λ h. ground arith, λ h. ground arith)

  push-All :
      (d : Duration) (x : HeapItem I) (h : Heap I)
      → d ≤ x.deadline
      → All (λ y. d ≤ y.deadline) h
      → All (λ y. d ≤ y.deadline) (Heap.push x h)
  unfolding Heap.push
  push-All d x [] le all = (le, tt)
  push-All d x (y ∷ h) le all =
      if-cases (All (λ z. d ≤ z.deadline)) (item_lt x y) (x ∷ y ∷ h) (y ∷ Heap.push x h) (le, all)
        (all.0, push-All d x h le all.1)

  pub push-IsSorted : (x : HeapItem I) (h : Heap I) → IsSorted h → IsSorted (Heap.push x h)
  unfolding Heap.push
  push-IsSorted x [] s = (tt, tt)
  push-IsSorted x (y ∷ h) s = elim (Bool-cases (item_lt x y)) [
    | inl first ↦
        let le = (item_lt-le x y).0 first in
        rw first ((le, All-earlier x.deadline y.deadline h le s.0), s)
    | inr behind ↦
        rw behind (push-All y.deadline x h ((item_lt-le x y).1 behind) s.0, push-IsSorted x h s.1)
  ]

  pub push-Holds : (x : HeapItem I) (h : Heap I) → Holds x (Heap.push x h)
  unfolding Heap.push
  push-Holds x [] = inl refl
  push-Holds x (y ∷ h) =
      if-cases (Holds x) (item_lt x y) (x ∷ y ∷ h) (y ∷ Heap.push x h) (inl refl)
        (inr (push-Holds x h))

  pub push_keeps : (x z : HeapItem I) (h : Heap I) → Holds z h → Holds z (Heap.push x h)
  unfolding Heap.push
  push_keeps x z [] m = elim m [ ]
  push_keeps x z (y ∷ h) (inl e) =
      if-cases (Holds z) (item_lt x y) (x ∷ y ∷ h) (y ∷ Heap.push x h) (inr (inl e)) (inl e)
  push_keeps x z (y ∷ h) (inr m) =
      if-cases (Holds z) (item_lt x y) (x ∷ y ∷ h) (y ∷ Heap.push x h) (inr (inr m))
        (inr (push_keeps x z h m))

  pub push_inv : (x z : HeapItem I) (h : Heap I) → Holds z (Heap.push x h) → (z ≡ x) ⊎ Holds z h
  unfolding Heap.push
  push_inv x z [] m = m
  push_inv x z (y ∷ h) m = elim (Bool-cases (item_lt x y)) [
    | inl first ↦ rw first at m
    | inr behind ↦
        let m' : (z ≡ y) ⊎ Holds z (Heap.push x h) = rw behind at m in
        elim m' [
          | inl q ↦ inr (inl q)
          | inr k ↦ elim (push_inv x z h k) [ inl q ↦ inl q | inr l ↦ inr (inr l) ]
        ]
  ]

module _ {I F W : Type 0} ⦃e : Eq I⦄ ⦃o : Ord I⦄ where
  pub heap_of-IsSorted : (m : HashMap I (EntryState F W)) → IsSorted (heap_of m)
  unfolding heap_of
  heap_of-IsSorted [] = tt
  heap_of-IsSorted ((id, st) ∷ m) = push-IsSorted (item_of id st) (heap_of m) (heap_of-IsSorted m)

  pub heap_of-Holds :
      (m : HashMap I (EntryState F W)) (id : I) (st : EntryState F W)
      → HashMap.lookup id m ≡ some st
      → Holds (item_of id st) (heap_of m)
  unfolding heap_of HashMap.lookup
  heap_of-Holds [] id st h = cc
  heap_of-Holds ((j, w) ∷ m) id st h = elim (Bool-cases (e.beq j id)) [
    | inl here ↦
        let same : item_of j w ≡ item_of id st = ground (arith, e.beq_iff j id, here, h) in
        subst (λ x. Holds x (Heap.push (item_of j w) (heap_of m))) same
          (push-Holds (item_of j w) (heap_of m))
    | inr apart ↦
        push_keeps (item_of j w) (item_of id st) (heap_of m) (heap_of-Holds m id st (rw apart at h))
  ]
