-- ===== src/InFlight/Indexed.antt =====
-- The calls on the table of src/in_flight.rs, and the items in its heap.
use shared_rate_limiter.Base.{
  ℕ, suc, ◌≡◌, refl, sym, subst, ◌∙◌, inl, inr, true, Bool-cases, Option-cases, if-cases, ◌==◌,
  none, some, [], ◌∷◌, length, Eq, arith, ==_iff,
}
use shared_rate_limiter.Types.{Duration}
use shared_rate_limiter.HashMap
use shared_rate_limiter.HashMap.{HashMap, keys}
use shared_rate_limiter.HashMap.Laws.{IsDistinct-insert, IsDistinct-remove, lookup-insert}
use shared_rate_limiter.InFlight.Waiters
use shared_rate_limiter.InFlight.Heap
use shared_rate_limiter.InFlight.Heap.{Heap, HeapItem, Ord}
use shared_rate_limiter.InFlight.Table
use shared_rate_limiter.InFlight.Table.{
  InFlightTable, EntryState, BeginResult, item_of, heap_of, compact_heap, maybe_compact_heap,
  insert_new, begin, complete, expire_item, expire_loop, expire,
}
use shared_rate_limiter.InFlight.Order.{
  Holds, push-IsSorted, push-Holds, push_keeps, heap_of-IsSorted, heap_of-Holds,
}
use shared_rate_limiter.InFlight.Expiry.{Covers, IsIndexed, loop_left, left_over}

module _ {I F W : Type 0} ⦃e : Eq I⦄ ⦃o : Ord I⦄ where
  empty-lookup :
      (m : HashMap I (EntryState F W)) (id : I)
      → (length m == 0) ≡ true
      → HashMap.lookup id m ≡ none
  unfolding HashMap.lookup
  empty-lookup [] id h = refl
  empty-lookup (x ∷ m) id h = absurd (ground (arith, (==_iff (suc (length m)) 0).0 h))

  compact-IsIndexed : (t : InFlightTable I F W) → IsIndexed t → IsIndexed (maybe_compact_heap t)
  unfolding maybe_compact_heap compact_heap
  compact-IsIndexed t x = elim (Bool-cases (length t.entries == 0)) [
    | inl empty ↦ rw empty (record {
      distinct = x.distinct;
      sorted = tt;
      covers = λ id st h. absurd (ground (arith, empty-lookup t.entries id empty, h));
    })
    | inr live ↦ rw live (
        if-cases {A = InFlightTable I F W} IsIndexed _ (compact_heap t) t
          (record {
            distinct = x.distinct;
            sorted = heap_of-IsSorted t.entries;
            covers = heap_of-Holds t.entries;
          })
          x)
  ]

  pub new-IsIndexed : (n : ℕ) → IsIndexed {I = I} {F = F} {W = W} (Table.new n)
  unfolding Table.new HashMap.lookup
  new-IsIndexed n = record { distinct = tt; sorted = tt; covers = λ id st h. cc }

  pub removed-IsIndexed :
      (t : InFlightTable I F W) (id : I)
      → IsIndexed t
      → IsIndexed (record t { entries = HashMap.remove id t.entries })
  removed-IsIndexed t id x = record {
    distinct = IsDistinct-remove id t.entries x.distinct;
    sorted = x.sorted;
    covers = λ j st h. x.covers j st (left_over id j t.entries st x.distinct h).1;
  }

  complete-IsIndexed :
      (t : InFlightTable I F W) (id : I) → IsIndexed t → IsIndexed (complete t id).1
  unfolding complete
  complete-IsIndexed t id x =
      compact-IsIndexed (record t { entries = HashMap.remove id t.entries })
        (removed-IsIndexed t id x)

  pub popped-IsIndexed :
      (t : InFlightTable I F W) (now : Duration)
      → IsIndexed t
      → let r = expire_loop now t.heap t.entries in
        IsIndexed (record t { heap = r.1; entries = r.2 })
  popped-IsIndexed t now x =
      let (s', d', c', left) = loop_left now t.heap t.entries x.distinct x.sorted x.covers in
      record { distinct = d'; sorted = s'; covers = c' }

  expire-IsIndexed :
      (t : InFlightTable I F W) (now : Duration) → IsIndexed t → IsIndexed (expire t now).1
  unfolding expire
  expire-IsIndexed t now x =
      let r = expire_loop now t.heap t.entries in
      compact-IsIndexed (record t { heap = r.1; entries = r.2 }) (popped-IsIndexed t now x)

module _ {I F W : Type 0} ⦃e : Eq I⦄ ⦃f : Eq F⦄ ⦃o : Ord I⦄ where
  -- A table with an entry written, and a heap that has its item and the others.
  insert-Covers :
      (h h' : Heap I) (m : HashMap I (EntryState F W)) (id : I) (new : EntryState F W)
      → Covers h m
      → Holds (item_of id new) h'
      → ((x : HeapItem I) → Holds x h → Holds x h')
      → Covers h' (HashMap.insert id new m)
  insert-Covers h h' m id new c has keeps j st found = elim (Bool-cases (e.beq id j)) [
    | inl same ↦
        let at_key : HashMap.lookup j (HashMap.insert id new m) ≡ some new =
          lookup-insert id j new m ∙ (rw same refl) in
        let is : item_of id new ≡ item_of j st =
          ground (arith, (e.beq_iff id j).0 same, at_key, found) in
        subst (λ x. Holds x h') is has
    | inr apart ↦
        let elsewhere : HashMap.lookup j (HashMap.insert id new m) ≡ HashMap.lookup j m =
          lookup-insert id j new m ∙ (rw apart refl) in
        keeps (item_of j st) (c j st (sym elsewhere ∙ found))
  ]

  joined-IsIndexed :
      (t : InFlightTable I F W) (id : I) (st : EntryState F W) (w : W)
      → IsIndexed t
      → HashMap.lookup id t.entries ≡ some st
      → IsIndexed (record t {
        entries = HashMap.insert id (record st { waiters = Waiters.push st.waiters w }) t.entries;
      })
  joined-IsIndexed t id st w x there =
      let st' : EntryState F W = record st { waiters = Waiters.push st.waiters w } in
      record {
        distinct = IsDistinct-insert id st' t.entries x.distinct;
        sorted = x.sorted;
        covers =
            insert-Covers t.heap t.heap t.entries id st' x.covers (x.covers id st there)
              (λ i held. held);
      }

  -- The entry of a new request, and the table with it before the heap is compacted.
  abbrev pub entry : InFlightTable I F W → F → Duration → W → EntryState F W
  entry t fp deadline w = record {
    fp = fp;
    deadline = deadline;
    waiters = Waiters.one w;
    seq = Table.next_seq t;
  }

  abbrev pub started : InFlightTable I F W → I → EntryState F W → InFlightTable I F W
  started t id st = record t {
    seq = st.seq;
    heap = Heap.push (item_of id st) t.heap;
    entries = HashMap.insert id st t.entries;
  }

  pub started-IsIndexed :
      (t : InFlightTable I F W) (id : I) (st : EntryState F W)
      → IsIndexed t
      → IsIndexed (started t id st)
  started-IsIndexed t id st x = record {
    distinct = IsDistinct-insert id st t.entries x.distinct;
    sorted = push-IsSorted (item_of id st) t.heap x.sorted;
    covers =
        insert-Covers t.heap (Heap.push (item_of id st) t.heap) t.entries id st x.covers
          (push-Holds (item_of id st) t.heap) (λ i held. push_keeps (item_of id st) i t.heap held);
  }

  insert_new-IsIndexed :
      (t : InFlightTable I F W) (id : I) (fp : F) (deadline : Duration) (w : W)
      → IsIndexed t
      → IsIndexed (insert_new t id fp deadline w)
  unfolding insert_new
  insert_new-IsIndexed t id fp deadline w x =
      compact-IsIndexed (started t id (entry t fp deadline w))
        (started-IsIndexed t id (entry t fp deadline w) x)

  pub begin-IsIndexed :
      (t : InFlightTable I F W) (id : I) (fp : F) (deadline : Duration) (w : W)
      → IsIndexed t
      → IsIndexed (begin t id fp deadline w).1
  unfolding begin insert_new
  begin-IsIndexed t id fp deadline w x = elim (Option-cases (HashMap.lookup id t.entries)) [
    | inr (st, there) ↦
        rw (there, begin)
          (if-cases {A = BeginResult × InFlightTable I F W} (λ r. IsIndexed r.1) _ _ _ x
            (joined-IsIndexed t id st w x there))
    | inl absent ↦
        rw (absent, begin)
          (if-cases {A = BeginResult × InFlightTable I F W} (λ r. IsIndexed r.1) _ _ _ x
            (insert_new-IsIndexed t id fp deadline w x))
  ]

  -- A new table is indexed, and every call keeps an indexed table so.
  pub calls-IsIndexed :
      (n : ℕ) (t : InFlightTable I F W) (id : I) (fp : F) (deadline : Duration) (w : W)
      (now : Duration)
      → IsIndexed t
      → IsIndexed {I = I} {F = F} {W = W} (Table.new n)
        × IsIndexed (begin t id fp deadline w).1
        × IsIndexed (complete t id).1
        × IsIndexed (expire t now).1
  calls-IsIndexed n t id fp deadline w now x = (
    new-IsIndexed n,
    begin-IsIndexed t id fp deadline w x,
    complete-IsIndexed t id x,
    expire-IsIndexed t now x,
  )
