-- ===== src/InFlight/Genuine.antt =====
-- src/in_flight.rs: which items in the heap stand for which entries. Sequence numbers tell the items of
-- an entry from those of its predecessors.
use shared_rate_limiter.Base.{
  ℕ, ◌≤◌, ◌≡◌, sym, subst, ap, ◌∙◌, inl, inr, Bool-cases, if-cases, ltb, ◌==◌, some, [], ◌∷◌,
  length, Eq, arith,
}
use shared_rate_limiter.Types.{Duration}
use shared_rate_limiter.HashMap
use shared_rate_limiter.HashMap.{HashMap, keys}
use shared_rate_limiter.HashMap.Laws.{IsDistinct, lookup_absent}
use shared_rate_limiter.InFlight.Heap.{Heap, HeapItem, Ord}
use shared_rate_limiter.InFlight.Table
use shared_rate_limiter.InFlight.Table.{
  InFlightTable, EntryState, BeginResult, item_of, heap_of, compact_heap, maybe_compact_heap,
  insert_new, begin, complete, expire_item, expire_loop, expire,
}
use shared_rate_limiter.InFlight.Order.{Holds, push_inv}
use shared_rate_limiter.InFlight.Indexed.{removed-IsIndexed, popped-IsIndexed}
use shared_rate_limiter.InFlight.Expiry.{IsIndexed, left_over, item-IsDistinct, item_left}

module _ {I F W : Type 0} ⦃e : Eq I⦄ where
  -- An item with the number of the entry under its id is the item of that entry.
  abbrev pub Fits : Heap I → HashMap I (EntryState F W) → Type 0
  Fits h m =
      (x : HeapItem I) (st : EntryState F W)
      → Holds x h
      → HashMap.lookup x.id m ≡ some st
      → st.seq ≡ x.seq
      → x ≡ item_of x.id st

  -- Nothing new stands in a map.
  abbrev pub Within : HashMap I (EntryState F W) → HashMap I (EntryState F W) → Type 0
  Within m' m =
      (id : I) (st : EntryState F W)
      → HashMap.lookup id m' ≡ some st
      → HashMap.lookup id m ≡ some st

  pub Fits-Within :
      (h : Heap I) (m m' : HashMap I (EntryState F W)) → Within m' m → Fits h m → Fits h m'
  Fits-Within h m m' within fits x st held found same = fits x st held (within x.id st found) same

-- The table's items have numbers that it has given out, and each fits the entry of its number.
module _ {I F W : Type 0} ⦃e : Eq I⦄ ⦃o : Ord I⦄ where
  pub record IsGenuine (t : InFlightTable I F W) : Type 0 where
    pub given : (x : HeapItem I) → Holds x t.heap → x.seq ≤ t.seq
    pub fits : Fits t.heap t.entries

  heap_of_inv :
      (m : HashMap I (EntryState F W)) (x : HeapItem I)
      → IsDistinct (keys m)
      → Holds x (heap_of m)
      → (st : EntryState F W) × (HashMap.lookup x.id m ≡ some st) × (x ≡ item_of x.id st)
  unfolding heap_of HashMap.lookup
  heap_of_inv [] x d held = elim held [ ]
  heap_of_inv ((id, st) ∷ m) x d held = elim (push_inv (item_of id st) x (heap_of m) held) [
    | inl q ↦
        let here : x.id ≡ id = ap (λ y. y.id) q in
        (
          st,
          ground (arith, (e.beq_iff id x.id).1 (sym here)),
          q ∙ ap (λ k. item_of k st) (sym here),
        )
    | inr k ↦
        let (st', found, is) = heap_of_inv m x d.1 k in
        (st', ground (arith, e.beq_iff id x.id, lookup_absent id m d.0, found), is)
  ]

  pub compact-IsGenuine :
      (t : InFlightTable I F W) → IsIndexed t → IsGenuine t → IsGenuine (maybe_compact_heap t)
  unfolding maybe_compact_heap compact_heap
  compact-IsGenuine t x g = elim (Bool-cases (length t.entries == 0)) [
    | inl empty ↦
        rw empty
          (record { given = λ y held. elim held [ ]; fits = λ y st held found same. elim held [ ] })
    | inr live ↦ rw live (
        if-cases {A = InFlightTable I F W} IsGenuine _ (compact_heap t) t
          (record {
            given = λ y held.
                let (st, found, is) = heap_of_inv t.entries y x.distinct held in
                g.given y (subst (λ z. Holds z t.heap) (sym is) (x.covers y.id st found));
            fits = λ y st held found same.
                let (st', found', is) = heap_of_inv t.entries y x.distinct held in
                let one : st' ≡ st = ground (arith, found, found') in is ∙ ap (item_of y.id) one;
          })
          g)
  ]

module _ {I F W : Type 0} ⦃e : Eq I⦄ ⦃o : Ord I⦄ where
  pub new-IsGenuine : (n : ℕ) → IsGenuine {I = I} {F = F} {W = W} (Table.new n)
  unfolding Table.new
  new-IsGenuine n = record {
    given = λ y held. elim held [ ];
    fits = λ y st held found same. elim held [ ];
  }

  pub complete-IsGenuine :
      (t : InFlightTable I F W) (id : I) → IsIndexed t → IsGenuine t → IsGenuine (complete t id).1
  unfolding complete
  complete-IsGenuine t id x g =
      compact-IsGenuine (record t { entries = HashMap.remove id t.entries })
        (removed-IsIndexed t id x)
        (record {
          given = g.given;
          fits =
              Fits-Within t.heap t.entries (HashMap.remove id t.entries)
                (λ j st h. (left_over id j t.entries st x.distinct h).1) g.fits;
        })

  -- The loop's heap and entries are of those that it was given.
  loop-Within :
      (now : Duration) (h : Heap I) (m : HashMap I (EntryState F W))
      → IsDistinct (keys m)
      → let r = expire_loop now h m in ((x : HeapItem I) → Holds x r.1 → Holds x h) × Within r.2 m
  unfolding expire_loop
  loop-Within now [] m d = (λ x held. held, λ id st found. found)
  loop-Within now (top ∷ h) m d = elim (Bool-cases (ltb now top.deadline)) [
    | inl later ↦ rw later (λ x held. held, λ id st found. found)
    | inr due ↦
        let (below, within) = loop-Within now h (expire_item top m).1 (item-IsDistinct top m d) in
        rw due (
          λ x held. inr (below x held),
          λ id st found. (item_left top m id st d (within id st found)).0,
        )
  ]

  pub expire-IsGenuine :
      (t : InFlightTable I F W) (now : Duration)
      → IsIndexed t
      → IsGenuine t
      → IsGenuine (expire t now).1
  unfolding expire
  expire-IsGenuine t now x g =
      let r = expire_loop now t.heap t.entries in
      let (below, within) = loop-Within now t.heap t.entries x.distinct in
      compact-IsGenuine (record t { heap = r.1; entries = r.2 }) (popped-IsIndexed t now x)
        (record {
          given = λ y held. g.given y (below y held);
          fits = λ y st held found same. g.fits y st (below y held) (within y.id st found) same;
        })
