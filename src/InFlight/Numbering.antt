-- ===== src/InFlight/Numbering.antt =====
-- `begin` of src/in_flight.rs: the item of a new entry has a new number.
use shared_rate_limiter.Base.{
  ℕ, ◌+◌, ◌^◌, ◌<◌, ◌≡◌, refl, sym, ap, ◌∙◌, inl, inr, ◌≢◌, Bool-cases, Option-cases, if-cases,
  some, Eq, arith,
}
use shared_rate_limiter.Types.{Duration}
use shared_rate_limiter.HashMap
use shared_rate_limiter.HashMap.{HashMap, keys}
use shared_rate_limiter.HashMap.Laws.{lookup-insert, lookup-insert_ne}
use shared_rate_limiter.InFlight.Waiters
use shared_rate_limiter.InFlight.Heap
use shared_rate_limiter.InFlight.Heap.{Heap, HeapItem, Ord, item_lt}
use shared_rate_limiter.InFlight.Table
use shared_rate_limiter.InFlight.Table.{
  InFlightTable, EntryState, BeginResult, item_of, heap_of, compact_heap, maybe_compact_heap,
  insert_new, begin, complete, expire_item, expire_loop, expire,
}
use shared_rate_limiter.InFlight.Order.{Holds, push_inv}
use shared_rate_limiter.InFlight.Indexed.{entry, started, started-IsIndexed}
use shared_rate_limiter.InFlight.Expiry.{IsIndexed}
use shared_rate_limiter.InFlight.Genuine.{
  Fits, IsGenuine, new-IsGenuine, compact-IsGenuine, complete-IsGenuine, expire-IsGenuine,
}

module _ {I F W : Type 0} ⦃e : Eq I⦄ where
  -- A table with an entry written, whose items fit if those under its id do.
  insert-Fits :
      (h h' : Heap I) (m : HashMap I (EntryState F W)) (id : I) (new : EntryState F W)
      → ((x : HeapItem I) → Holds x h' → x.id ≡ id → new.seq ≡ x.seq → x ≡ item_of x.id new)
      → ((x : HeapItem I) → Holds x h' → x.id ≢ id → Holds x h)
      → Fits h m
      → Fits h' (HashMap.insert id new m)
  insert-Fits h h' m id new own other fits x st held found same =
      elim (Bool-cases (e.beq id x.id)) [
        | inl here ↦
            let q : id ≡ x.id = (e.beq_iff id x.id).0 here in
            let at_key : HashMap.lookup x.id (HashMap.insert id new m) ≡ some new =
              lookup-insert id x.id new m ∙ (rw here refl) in
            let one : new ≡ st = ground (arith, at_key, found) in
            own x held (sym q) (ap (λ s. s.seq) one ∙ same) ∙ ap (item_of x.id) one
        | inr apart ↦
            let ne : x.id ≢ id = (λ q. ground (arith, (e.beq_iff id x.id).1 (sym q), apart)) in
            let there : HashMap.lookup x.id m ≡ some st =
              sym (lookup-insert_ne id x.id new m (λ q. ne (sym q))) ∙ found in
            fits x st (other x held ne) there same
      ]

module _ {I F W : Type 0} ⦃e : Eq I⦄ ⦃f : Eq F⦄ ⦃o : Ord I⦄ where
  joined-IsGenuine :
      (t : InFlightTable I F W) (id : I) (st : EntryState F W) (w : W)
      → IsGenuine t
      → HashMap.lookup id t.entries ≡ some st
      → IsGenuine (record t {
        entries = HashMap.insert id (record st { waiters = Waiters.push st.waiters w }) t.entries;
      })
  joined-IsGenuine t id st w g there = record {
    given = g.given;
    fits =
        insert-Fits t.heap t.heap t.entries id (record st { waiters = Waiters.push st.waiters w })
          (λ x held q same. g.fits x st held (ap (λ k. HashMap.lookup k t.entries) q ∙ there) same)
          (λ x held ne. held) g.fits;
  }

  started-IsGenuine :
      (t : InFlightTable I F W) (id : I) (fp : F) (deadline : Duration) (w : W)
      → t.seq + 1 < 2 ^ 64
      → IsGenuine t
      → IsGenuine (started t id (entry t fp deadline w))
  started-IsGenuine t id fp deadline w room g =
      let new = entry t fp deadline w in
      record {
        given = λ x held. elim (push_inv (item_of id new) x t.heap held) [
          | inl q ↦ omega (arith, ap (λ y. y.seq) q)
          | inr old ↦ omega (arith, g.given x old, room)
        ];
        fits =
            insert-Fits t.heap (Heap.push (item_of id new) t.heap) t.entries id new
              (λ x held q same. elim (push_inv (item_of id new) x t.heap held) [
                | inl is ↦ is ∙ ap (λ k. item_of k new) (sym q)
                | inr old ↦ absurd (omega (arith, g.given x old, same, room))
              ])
              (λ x held ne. elim (push_inv (item_of id new) x t.heap held) [
                | inl is ↦ absurd (ne (ap (λ y. y.id) is))
                | inr old ↦ old
              ])
              g.fits;
      }

  pub begin-IsGenuine :
      (t : InFlightTable I F W) (id : I) (fp : F) (deadline : Duration) (w : W)
      → t.seq + 1 < 2 ^ 64
      → IsIndexed t
      → IsGenuine t
      → IsGenuine (begin t id fp deadline w).1
  unfolding begin insert_new
  begin-IsGenuine t id fp deadline w room x g = elim (Option-cases (HashMap.lookup id t.entries)) [
    | inr (st, there) ↦
        rw (there, begin)
          (if-cases {A = BeginResult × InFlightTable I F W} (λ r. IsGenuine r.1) _ _ _ g
            (joined-IsGenuine t id st w g there))
    | inl absent ↦
        rw (absent, begin)
          (if-cases {A = BeginResult × InFlightTable I F W} (λ r. IsGenuine r.1) _ _ _ g
            (compact-IsGenuine (started t id (entry t fp deadline w))
              (started-IsIndexed t id (entry t fp deadline w) x)
              (started-IsGenuine t id fp deadline w room g)))
  ]

module _ {I F W : Type 0} ⦃e : Eq I⦄ ⦃f : Eq F⦄ ⦃o : Ord I⦄ where
  -- A new table is genuine, and begin, complete and expire keep an indexed genuine table so, while its
  -- sequence numbers do not wrap: each item in the heap has a number that was given out, and where it
  -- is the number of the entry under the item's id, the item has this entry's deadline.
  pub calls-IsGenuine :
      (n : ℕ) (t : InFlightTable I F W) (id : I) (fp : F) (deadline : Duration) (w : W)
      (now : Duration)
      → t.seq + 1 < 2 ^ 64
      → IsIndexed t
      → IsGenuine t
      → IsGenuine {I = I} {F = F} {W = W} (Table.new n)
        × IsGenuine (begin t id fp deadline w).1
        × IsGenuine (complete t id).1
        × IsGenuine (expire t now).1
  calls-IsGenuine n t id fp deadline w now room x g = (
    new-IsGenuine n,
    begin-IsGenuine t id fp deadline w room x g,
    complete-IsGenuine t id x g,
    expire-IsGenuine t now x g,
  )
