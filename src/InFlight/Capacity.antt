-- ===== src/InFlight/Capacity.antt =====
-- src/in_flight.rs: the number of entries against the maximum.
use shared_rate_limiter.Base.{
  ℕ, ◌≤◌, ◌≡◌, inl, inr, Bool-cases, Option-cases, if-cases, leb, Eq, arith,
}
use shared_rate_limiter.Types.{Duration}
use shared_rate_limiter.HashMap
use shared_rate_limiter.HashMap.{HashMap}
use shared_rate_limiter.HashMap.Laws.{len-insert, len-remove, contains_of_some, contains_of_none}
use shared_rate_limiter.InFlight.Waiters
use shared_rate_limiter.InFlight.Heap.{Ord}
use shared_rate_limiter.InFlight.Table
use shared_rate_limiter.InFlight.Table.{
  InFlightTable, EntryState, BeginResult, insert_new, maybe_compact_heap, begin, complete,
  expire_item, expire_loop, expire,
}
use shared_rate_limiter.InFlight.Compaction.{compact-entries, expire_loop-le}
use shared_rate_limiter.InFlight.Indexed.{entry, started}

module _ {I F W : Type 0} ⦃e : Eq I⦄ ⦃f : Eq F⦄ ⦃o : Ord I⦄ where
  abbrev pub IsWithin : InFlightTable I F W → Type 0
  IsWithin t = HashMap.len t.entries ≤ t.max_in_flight

  compact_max : (t : InFlightTable I F W) → (maybe_compact_heap t).max_in_flight ≡ t.max_in_flight
  unfolding maybe_compact_heap Table.compact_heap
  compact_max t = ground arith

  compact-IsWithin : (t : InFlightTable I F W) → IsWithin t → IsWithin (maybe_compact_heap t)
  compact-IsWithin t h = rw (compact-entries, compact_max t) h

  begin-IsWithin :
      (t : InFlightTable I F W) (id : I) (fp : F) (deadline : Duration) (w : W)
      → IsWithin t
      → IsWithin (begin t id fp deadline w).1
  unfolding begin insert_new
  begin-IsWithin t id fp deadline w h = elim (Option-cases (HashMap.lookup id t.entries)) [
    | inr (st, there) ↦
        let st' : EntryState F W = record st { waiters = Waiters.push st.waiters w } in
        let le : IsWithin (record t { entries = HashMap.insert id st' t.entries }) =
          ground (arith, h, len-insert id st' t.entries, contains_of_some id t.entries st there) in
        rw (there, begin)
          (if-cases {A = BeginResult × InFlightTable I F W} (λ r. IsWithin r.1) _ _ _ h le)
    | inl absent ↦ elim (Bool-cases (leb t.max_in_flight (HashMap.len t.entries))) [
      | inl full ↦ rw (absent, begin, full) h
      | inr room ↦
          rw (absent, begin, room)
            (compact-IsWithin (started t id (entry t fp deadline w)) (
              ground (
                arith,
                room,
                len-insert id (entry t fp deadline w) t.entries,
                contains_of_none id t.entries absent,
              )))
    ]
  ]

module _ {I F W : Type 0} ⦃e : Eq I⦄ ⦃f : Eq F⦄ ⦃o : Ord I⦄ where
  -- A new table has at most as many entries as its maximum, and begin, complete and expire keep a table
  -- so.
  pub calls-IsWithin :
      (n : ℕ) (t : InFlightTable I F W) (id : I) (fp : F) (deadline : Duration) (w : W)
      (now : Duration)
      → IsWithin t
      → IsWithin {I = I} {F = F} {W = W} (Table.new n)
        × IsWithin (begin t id fp deadline w).1
        × IsWithin (complete t id).1
        × IsWithin (expire t now).1
  unfolding Table.new complete expire
  calls-IsWithin n t id fp deadline w now h = (
    omega arith,
    begin-IsWithin t id fp deadline w h,
    compact-IsWithin (record t { entries = HashMap.remove id t.entries })
        (ground (arith, h, len-remove id t.entries)),
    compact-IsWithin
        (record t {
          heap = (expire_loop now t.heap t.entries).1;
          entries = (expire_loop now t.heap t.entries).2;
        })
        (omega (arith, h, expire_loop-le now t.heap t.entries)),
  )
