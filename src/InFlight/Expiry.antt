-- ===== src/InFlight/Expiry.antt =====
-- `expire` of src/in_flight.rs: what its loop does to a table whose heap holds an item for each entry.
use shared_rate_limiter.Base.{
  ◌<◌, ◌≡◌, sym, ap, ◌∙◌, inl, inr, ◌≢◌, Bool-cases, Option-cases, ltb, ltb→lt, ◌==◌, none, some,
  [], ◌∷◌, Eq, arith,
}
use shared_rate_limiter.Types.{Duration}
use shared_rate_limiter.HashMap
use shared_rate_limiter.HashMap.{HashMap, keys}
use shared_rate_limiter.HashMap.Laws.{
  IsDistinct, IsDistinct-remove, lookup-remove_self, lookup-remove_ne,
}
use shared_rate_limiter.InFlight.Heap.{Heap, HeapItem, Ord}
use shared_rate_limiter.InFlight.Table.{
  InFlightTable, EntryState, item_of, expire_item, expire_loop, expire,
}
use shared_rate_limiter.InFlight.Order.{IsSorted, Holds, first_least}
use shared_rate_limiter.InFlight.Compaction.{compact-entries}

module _ {I F W : Type 0} ⦃e : Eq I⦄ ⦃o : Ord I⦄ where
  -- Each entry has its item in the heap.
  abbrev pub Covers : Heap I → HashMap I (EntryState F W) → Type 0
  Covers h m =
      (id : I) (st : EntryState F W) → HashMap.lookup id m ≡ some st → Holds (item_of id st) h

  -- What is left by a removal was there.
  pub left_over :
      (k id : I) (m : HashMap I (EntryState F W)) (st : EntryState F W)
      → IsDistinct (keys m)
      → HashMap.lookup id (HashMap.remove k m) ≡ some st
      → (k ≢ id) × (HashMap.lookup id m ≡ some st)
  left_over k id m st d h = elim (Bool-cases (e.beq k id)) [
    | inl same ↦ absurd (ground (arith, (e.beq_iff k id).0 same, lookup-remove_self k m d, h))
    | inr apart ↦
        let ne : k ≢ id = (λ q. ground (arith, (e.beq_iff k id).1 q, apart)) in
        (ne, sym (lookup-remove_ne k id m ne) ∙ h)
  ]

  absent_ne :
      (k id : I) (m : HashMap I (EntryState F W)) (st : EntryState F W)
      → HashMap.lookup k m ≡ none
      → HashMap.lookup id m ≡ some st
      → id ≢ k
  absent_ne k id m st gone there q = ground (arith, q, gone, there)

  -- A round of the loop takes the entry of the item, and no other.
  pub item_left :
      (top : HeapItem I) (m : HashMap I (EntryState F W)) (id : I) (st : EntryState F W)
      → IsDistinct (keys m)
      → HashMap.lookup id (expire_item top m).1 ≡ some st
      → (HashMap.lookup id m ≡ some st) × (item_of id st ≢ top)
  unfolding expire_item
  item_left top m id st d h = elim (Option-cases (HashMap.lookup top.id m)) [
    | inl gone ↦
        let there : HashMap.lookup id m ≡ some st = rw (gone, expire_item) at h in
        (there, λ q. absent_ne top.id id m st gone there (ap (λ x. x.id) q))
    | inr (cur, e₁) ↦ elim (Bool-cases (cur.seq == top.seq)) [
      | inl live ↦
          let rest : HashMap.lookup id (HashMap.remove top.id m) ≡ some st =
            rw (e₁, live, expire_item) at h in
          let (apart, there) = left_over top.id id m st d rest in
          (there, λ q. absurd (apart (sym (ap (λ x. x.id) q))))
      | inr stale ↦
          let there : HashMap.lookup id m ≡ some st = rw (e₁, stale, expire_item) at h in
          (
            there,
            λ q.
                let qi : top.id ≡ id = sym (ap (λ x. x.id) q) in
                let is : some cur ≡ some st = sym e₁ ∙ ap (λ k. HashMap.lookup k m) qi ∙ there in
                let qs : st.seq ≡ top.seq = ap (λ x. x.seq) q in ground (arith, is, qs, stale),
          )
    ]
  ]

  pub item-IsDistinct :
      (top : HeapItem I) (m : HashMap I (EntryState F W))
      → IsDistinct (keys m)
      → IsDistinct (keys (expire_item top m).1)
  unfolding expire_item
  item-IsDistinct top m d = grind (arith, IsDistinct-remove top.id m d)

  pub item-Covers :
      (top : HeapItem I) (h : Heap I) (m : HashMap I (EntryState F W))
      → IsDistinct (keys m)
      → Covers (top ∷ h) m
      → Covers h (expire_item top m).1
  item-Covers top h m d c id st found =
      let (there, other) = item_left top m id st d found in
      elim (c id st there) [ inl same ↦ absurd (other same) | inr m ↦ m ]

  -- The loop leaves entries that were there and are not due, with their items in the rest of the
  -- heap.
  pub loop_left :
      (now : Duration) (h : Heap I) (m : HashMap I (EntryState F W))
      → IsDistinct (keys m)
      → IsSorted h
      → Covers h m
      → let r = expire_loop now h m in
        IsSorted r.1
        × IsDistinct (keys r.2)
        × Covers r.1 r.2
        × ((id : I) (st : EntryState F W)
            → HashMap.lookup id r.2 ≡ some st
            → (HashMap.lookup id m ≡ some st) × (now < st.deadline))
  unfolding expire_loop
  loop_left now [] m d s c = (s, d, c, λ id st found. elim (c id st found) [ ])
  loop_left now (top ∷ h) m d s c = elim (Bool-cases (ltb now top.deadline)) [
    | inl later ↦ rw later (
      s,
      d,
      c,
      λ id st found. (
        found,
        omega (
          arith,
          ltb→lt now top.deadline later,
          first_least top h (item_of id st) s (c id st found),
        ),
      ),
    )
    | inr due ↦
        let m' = (expire_item top m).1 in
        let (s', d', c', left) =
          loop_left now h m' (item-IsDistinct top m d) s.1 (item-Covers top h m d c) in
        rw due (
          s',
          d',
          c',
          λ id st found.
              let (there, early) = left id st found in ((item_left top m id st d there).0, early),
        )
  ]

  -- The table's ids are told apart, its heap is in the order of the deadlines, and each entry has its
  -- item there.
  pub record IsIndexed (t : InFlightTable I F W) : Type 0 where
    pub distinct : IsDistinct (keys t.entries)
    pub sorted : IsSorted t.heap
    pub covers : Covers t.heap t.entries

  -- An entry that `expire` leaves in an indexed table was there before, with the same waiters, and
  -- is due later than the time given: no entry that is due stays.
  expire-due :
      (t : InFlightTable I F W) (now : Duration) (id : I) (st : EntryState F W)
      → IsIndexed t
      → HashMap.lookup id (expire t now).1.entries ≡ some st
      → (HashMap.lookup id t.entries ≡ some st) × (now < st.deadline)
  unfolding expire
  expire-due t now id st x found =
      let (s', d', c', left) = loop_left now t.heap t.entries x.distinct x.sorted x.covers in
      left id st (rw compact-entries at found)
