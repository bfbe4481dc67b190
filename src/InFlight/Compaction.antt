-- ===== src/InFlight/Compaction.antt =====
-- The lazy deletion of src/in_flight.rs: how far the heap may outgrow the table.
use shared_rate_limiter.Base.{
  ◌+◌, ◌*◌, ◌≤◌, ◌<◌, ◌≡◌, refl, min, none, [], ◌∷◌, length, Eq, arith, true, if-cases,
  Option-cases, inl, inr,
}
use shared_rate_limiter.Word.{u64_max}
use shared_rate_limiter.Types.{Duration}
use shared_rate_limiter.HashMap
use shared_rate_limiter.HashMap.{HashMap}
use shared_rate_limiter.HashMap.Laws.{len-insert, len-remove, contains_of_some, contains_of_none}
use shared_rate_limiter.InFlight.Waiters
use shared_rate_limiter.InFlight.Waiters.{into_vec-push}
use shared_rate_limiter.InFlight.Heap
use shared_rate_limiter.InFlight.Heap.{Heap, HeapItem, Ord}
use shared_rate_limiter.InFlight.Table
use shared_rate_limiter.InFlight.Table.{
  InFlightTable, EntryState, BeginResult, insert_new, begin, complete, expire, maybe_compact_heap,
  compact_heap, heap_of, item_of, new_entry, joined, expire_item, expire_loop,
}

module _ {I : Type 0} ⦃o : Ord I⦄ where
  push-length : (x : HeapItem I) (h : Heap I) → length (Heap.push x h) ≡ length h + 1
  unfolding Heap.push
  push-length x [] = refl
  push-length x (y ∷ h) = ground (arith, push-length x h)

module _ {I F W : Type 0} ⦃o : Ord I⦄ where
  heap_of-length : (m : HashMap I (EntryState F W)) → length (heap_of m) ≡ HashMap.len m
  unfolding heap_of
  heap_of-length [] = refl
  heap_of-length ((id, st) ∷ m) =
      omega (arith, push-length (item_of id st) (heap_of m), heap_of-length m)

  compact-bound :
      (t : InFlightTable I F W)
      → HashMap.len t.entries ≤ u64_max
      → length (maybe_compact_heap t).heap ≤ min (HashMap.len t.entries * 4) u64_max + 64
  unfolding maybe_compact_heap compact_heap
  compact-bound t fits = ground (arith, heap_of-length t.entries)

  pub compact-entries : (t : InFlightTable I F W) → (maybe_compact_heap t).entries ≡ t.entries
  unfolding maybe_compact_heap compact_heap
  compact-entries t = ground arith

module _ {I F W : Type 0} ⦃e : Eq I⦄ ⦃f : Eq F⦄ ⦃o : Ord I⦄ where
  remove-le :
      (id : I) (m : HashMap I (EntryState F W)) → HashMap.len (HashMap.remove id m) ≤ HashMap.len m
  remove-le id m = grind (arith, len-remove id m)

  expire_item-le :
      (top : HeapItem I) (m : HashMap I (EntryState F W))
      → HashMap.len (expire_item top m).1 ≤ HashMap.len m
  unfolding expire_item
  expire_item-le top m = grind (arith, remove-le top.id m)

  pub expire_loop-le :
      (now : Duration) (h : Heap I) (m : HashMap I (EntryState F W))
      → HashMap.len (expire_loop now h m).2 ≤ HashMap.len m
  unfolding expire_loop
  expire_loop-le now [] m = omega arith
  expire_loop-le now (top ∷ h) m =
      ground (arith, expire_item-le top m, expire_loop-le now h (expire_item top m).1)

  -- Stale items do not pile up: the heap has at most four items for an entry and 64 more, as far
  -- as a `usize` counts.
  abbrev pub IsCompact : InFlightTable I F W → Type 0
  IsCompact t = length t.heap ≤ min (HashMap.len t.entries * 4) u64_max + 64

  maybe_compact_heap-IsCompact :
      (t : InFlightTable I F W) → HashMap.len t.entries ≤ u64_max → IsCompact (maybe_compact_heap t)
  maybe_compact_heap-IsCompact t fits = rw compact-entries (compact-bound t fits)

  insert_new-IsCompact :
      (t : InFlightTable I F W) (id : I) (fp : F) (deadline : Duration) (w : W)
      → HashMap.len t.entries < u64_max
      → HashMap.lookup id t.entries ≡ none
      → IsCompact (insert_new t id fp deadline w)
  unfolding insert_new
  insert_new-IsCompact t id fp deadline w fits e =
      let st : EntryState F W = record {
        fp = fp;
        deadline = deadline;
        waiters = Waiters.one w;
        seq = Table.next_seq t;
      } in
      maybe_compact_heap-IsCompact
        (record t {
          seq = Table.next_seq t;
          heap = Heap.push (item_of id st) t.heap;
          entries = HashMap.insert id st t.entries;
        })
        (rw (len-insert id st t.entries, contains_of_none id t.entries e) (omega (arith, fits)))

  joined-IsCompact :
      (t : InFlightTable I F W) (id : I) (st : EntryState F W)
      → HashMap.contains_key id t.entries ≡ true
      → IsCompact t
      → IsCompact (record t { entries = HashMap.insert id st t.entries })
  joined-IsCompact t id st there h = rw (len-insert id st t.entries, there) h

  begin-IsCompact :
      (t : InFlightTable I F W) (id : I) (fp : F) (deadline : Duration) (w : W)
      → HashMap.len t.entries < u64_max
      → IsCompact t
      → IsCompact (begin t id fp deadline w).1
  unfolding begin insert_new
  begin-IsCompact t id fp deadline w fits h = elim (Option-cases (HashMap.lookup id t.entries)) [
    | inr (st, e) ↦
        rw (e, begin)
          (if-cases {A = BeginResult × InFlightTable I F W} (λ r. IsCompact r.1) _ _ _ h
            (joined-IsCompact t id (record st { waiters = Waiters.push st.waiters w })
              (contains_of_some id t.entries st e) h))
    | inl e ↦
        rw (e, begin)
          (if-cases {A = BeginResult × InFlightTable I F W} (λ r. IsCompact r.1) _ _ _ h
            (insert_new-IsCompact t id fp deadline w fits e))
  ]

  -- A table that no more than a `usize` of entries fit in keeps its heap in proportion to them:
  -- after `begin`, whatever it answers, and after `complete` and `expire`, the heap has at most
  -- four items for each entry and 64 more. The first needs the same of the table before.
  pub heap-bound :
      (t : InFlightTable I F W) (id : I) (fp : F) (deadline : Duration) (w : W) (now : Duration)
      → HashMap.len t.entries < u64_max
      → IsCompact t
      → IsCompact (begin t id fp deadline w).1
        × IsCompact (complete t id).1
        × IsCompact (expire t now).1
  unfolding complete expire
  heap-bound t id fp deadline w now fits h = (
    begin-IsCompact t id fp deadline w fits h,
    maybe_compact_heap-IsCompact (record t { entries = HashMap.remove id t.entries })
        (omega (arith, remove-le id t.entries, fits)),
    maybe_compact_heap-IsCompact
        (record t {
          heap = (expire_loop now t.heap t.entries).1;
          entries = (expire_loop now t.heap t.entries).2;
        })
        (omega (arith, expire_loop-le now t.heap t.entries, fits)),
  )
