-- ===== src/InFlight/Table.antt =====
-- `InFlightTable` of src/in_flight.rs. Ids, fingerprints and waiters are any types with the
-- interfaces that the source asks of them. `usize` and `u64` have 64 bits.
use shared_rate_limiter.Base.{
  ℕ, ◌+◌, ◌*◌, ◌%◌, ◌^◌, min, Bool, not, if◌then◌else◌, leb, ltb, ◌==◌, none, some, List, [], ◌∷◌,
  ◌++◌, length, Eq,
}
use shared_rate_limiter.Word.{u64_max, wrapping_add_u64}
use shared_rate_limiter.Types.{Duration}
use shared_rate_limiter.HashMap
use shared_rate_limiter.HashMap.{HashMap}
use shared_rate_limiter.InFlight.Waiters
use shared_rate_limiter.InFlight.Waiters.{Waiters}
use shared_rate_limiter.InFlight.Heap
use shared_rate_limiter.InFlight.Heap.{Heap, HeapItem, Ord}

pub data BeginResult : Type 0 where
  new_entry joined payload_mismatch table_full : BeginResult

pub record EntryState (F W : Type 0) : Type 0 where
  pub fp : F
  pub deadline : Duration
  pub waiters : Waiters W
  pub seq : ℕ

pub record InFlightTable (I F W : Type 0) : Type 0 where
  pub max_in_flight : ℕ
  pub seq : ℕ
  pub entries : HashMap I (EntryState F W)
  pub heap : Heap I

module _ {I F W : Type 0} where
  unfoldable pub new : ℕ → InFlightTable I F W
  new max_in_flight = record { max_in_flight = max_in_flight; seq = 0; entries = []; heap = [] }

  unfoldable pub len : InFlightTable I F W → ℕ
  len t = HashMap.len t.entries

  unfoldable pub is_empty : InFlightTable I F W → Bool
  unfolding len
  is_empty t = len t == 0

  -- `wrapping_add(1)`.
  abbrev pub next_seq : InFlightTable I F W → ℕ
  next_seq t = (t.seq + 1) % 2 ^ 64

  abbrev pub item_of : I → EntryState F W → HeapItem I
  item_of id st = record { deadline = st.deadline; seq = st.seq; id = id }

module _ {I F W : Type 0} ⦃o : Ord I⦄ where
  -- The loop of `compact_heap`, which pushes an item for each live entry.
  unfoldable pub heap_of : HashMap I (EntryState F W) → Heap I
  unfolding Heap.push
  heap_of [] = []
  heap_of ((id, st) ∷ m) = Heap.push (item_of id st) (heap_of m)

  unfoldable pub compact_heap : InFlightTable I F W → InFlightTable I F W
  unfolding heap_of
  compact_heap t = record t { heap = heap_of t.entries }

  unfoldable pub maybe_compact_heap : InFlightTable I F W → InFlightTable I F W
  unfolding compact_heap
  maybe_compact_heap t =
      let live = HashMap.len t.entries in
      if live == 0
      then record t { heap = [] }
      else if ltb (wrapping_add_u64 (min (live * 4) u64_max) 64) (length t.heap)
      then compact_heap t
      else t

module _ {I F W : Type 0} ⦃e : Eq I⦄ ⦃o : Ord I⦄ where
  unfoldable pub insert_new : InFlightTable I F W → I → F → Duration → W → InFlightTable I F W
  unfolding HashMap.insert Heap.push maybe_compact_heap
  insert_new t id fp deadline waiter =
      let seq = next_seq t in
      let st : EntryState F W = record {
        fp = fp;
        deadline = deadline;
        waiters = Waiters.one waiter;
        seq = seq;
      } in
      maybe_compact_heap (record t {
        seq = seq;
        heap = Heap.push (item_of id st) t.heap;
        entries = HashMap.insert id st t.entries;
      })

  unfoldable pub begin :
      ⦃f : Eq F⦄ → InFlightTable I F W → I → F → Duration → W → BeginResult × InFlightTable I F W
  unfolding HashMap.lookup HashMap.insert Waiters.push insert_new
  begin ⦃f⦄ t id fp deadline waiter = elim (HashMap.lookup id t.entries) [
    | some st ↦ if not (f.beq st.fp fp) then (payload_mismatch, t) else (
      joined,
      record t {
        entries =
            HashMap.insert id (record st { waiters = Waiters.push st.waiters waiter }) t.entries;
      },
    )
    | none ↦
        if leb t.max_in_flight (HashMap.len t.entries)
        then (table_full, t)
        else (new_entry, insert_new t id fp deadline waiter)
  ]

  unfoldable pub complete : InFlightTable I F W → I → List W × InFlightTable I F W
  unfolding HashMap.lookup HashMap.remove Waiters.into_vec maybe_compact_heap
  complete t id = (
    elim (HashMap.lookup id t.entries) [ none ↦ [] | some st ↦ Waiters.into_vec st.waiters ],
    maybe_compact_heap (record t { entries = HashMap.remove id t.entries }),
  )

  -- One round of `expire` behind the pop: the entries without the one that the item stands for, and
  -- what is pushed to `out`. An item without its entry is stale and dropped.
  unfoldable pub expire_item :
      HeapItem I → HashMap I (EntryState F W) → List (I × List W) × HashMap I (EntryState F W)
  unfolding HashMap.lookup HashMap.remove Waiters.into_vec
  expire_item top m = elim (HashMap.lookup top.id m) [
    | none ↦ ([], m)
    | some cur ↦
        if not (cur.seq == top.seq)
        then ([], m)
        else ((top.id, Waiters.into_vec cur.waiters) ∷ [], HashMap.remove top.id m)
  ]

  -- The loop of `expire`: what it pops, and the heap and the entries that it leaves.
  unfoldable pub expire_loop :
      Duration
      → Heap I
      → HashMap I (EntryState F W)
      → List (I × List W) × Heap I × HashMap I (EntryState F W)
  unfolding expire_item
  expire_loop now [] m = ([], [], m)
  expire_loop now (top ∷ heap) m =
      let rest = expire_loop now heap (expire_item top m).1 in
      if ltb now top.deadline
      then ([], top ∷ heap, m)
      else ((expire_item top m).0 ++ rest.0, rest.1, rest.2)

  unfoldable pub expire : InFlightTable I F W → Duration → List (I × List W) × InFlightTable I F W
  unfolding expire_loop maybe_compact_heap
  expire t now =
      let (out, heap, entries) = expire_loop now t.heap t.entries in
      (out, maybe_compact_heap (record t { heap = heap; entries = entries }))
