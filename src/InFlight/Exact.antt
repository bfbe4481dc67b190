-- ===== src/InFlight/Exact.antt =====
-- `expire` of src/in_flight.rs: which entries it takes, and which it leaves.
use shared_rate_limiter.Base.{
  ◌≤◌, ◌<◌, ◌≡◌, refl, sym, subst, ap, ◌∙◌, inl, inr, ◌≢◌, Bool-cases, ltb→lt, lt→ltb, Option-cases,
  ltb, ◌==◌, ==_iff, Option, none, some, if◌then◌else◌, List, [], ◌∷◌, ◌++◌, Eq, arith,
}
use shared_rate_limiter.Types.{Duration}
use shared_rate_limiter.HashMap
use shared_rate_limiter.HashMap.{HashMap, keys}
use shared_rate_limiter.HashMap.Laws.{IsDistinct, lookup-remove_ne}
use shared_rate_limiter.InFlight.Waiters
use shared_rate_limiter.InFlight.Heap.{Heap, HeapItem, Ord}
use shared_rate_limiter.InFlight.Table.{InFlightTable, EntryState, expire_item, expire_loop, expire}
use shared_rate_limiter.InFlight.Expiry.{IsIndexed, item_left, item-IsDistinct, loop_left}
use shared_rate_limiter.InFlight.Compaction.{compact-entries}
use shared_rate_limiter.InFlight.Genuine.{Fits, Within, Fits-Within, IsGenuine}

module _ {F W : Type 0} where
  -- The entry that `expire` is to leave of what stands under an id.
  abbrev pub undue : Duration → Option (EntryState F W) → Option (EntryState F W)
  undue now none = none
  undue now (some st) = if ltb now st.deadline then some st else none

  undue_lem :
      (now : Duration) (a b : Option (EntryState F W))
      → ((st : EntryState F W) → a ≡ some st → (b ≡ some st) × (now < st.deadline))
      → ((st : EntryState F W) → b ≡ some st → now < st.deadline → a ≡ some st)
      → a ≡ undue now b
  undue_lem now none none from to = refl
  undue_lem now none (some st) from to = elim (Bool-cases (ltb now st.deadline)) [
    | inl early ↦ absurd (cc (to st refl (ltb→lt now st.deadline early)))
    | inr due ↦ rw due refl
  ]
  undue_lem now (some st) b from to =
      let (there, early) = from st refl in
      subst (λ o. some st ≡ undue now o) (sym there) (rw (lt→ltb now st.deadline early) refl)

module _ {I F W : Type 0} ⦃e : Eq I⦄ ⦃o : Ord I⦄ where
  -- What `expire` hands out stands for an entry that was there and is due.
  abbrev pub AllDue : Duration → HashMap I (EntryState F W) → List (I × List W) → Type 0
  AllDue now m [] = Unit
  AllDue now m ((id, ws) ∷ out) =
      ((st : EntryState F W) × (HashMap.lookup id m ≡ some st)
        × (st.deadline ≤ now)
        × (ws ≡ Waiters.into_vec st.waiters))
      × AllDue now m out

  -- A round for an item that is due takes no entry that is not.
  item_stays :
      (now : Duration) (top : HeapItem I) (h : Heap I) (m : HashMap I (EntryState F W))
      → Fits (top ∷ h) m
      → top.deadline ≤ now
      → (id : I) (st : EntryState F W) → HashMap.lookup id m ≡ some st
      → now < st.deadline
      → HashMap.lookup id (expire_item top m).1 ≡ some st
  unfolding expire_item
  item_stays now top h m fits due id st found early =
      elim (Option-cases (HashMap.lookup top.id m)) [
        | inl gone ↦ rw (gone, expire_item) found
        | inr (cur, e₁) ↦ elim (Bool-cases (cur.seq == top.seq)) [
          | inl live ↦
              let is = fits top cur (inl refl) e₁ ((==_iff cur.seq top.seq).0 live) in
              let ne : top.id ≢ id = (λ q.
                let one : cur ≡ st = ground (arith, e₁, found, q) in
                omega (arith, ap (λ x. x.deadline) is, ap (λ s. s.deadline) one, due, early)) in
              rw (e₁, live, expire_item) (lookup-remove_ne top.id id m ne ∙ found)
          | inr stale ↦ rw (e₁, stale, expire_item) found
        ]
      ]

  AllDue-append :
      (now : Duration) (m : HashMap I (EntryState F W)) (out out' : List (I × List W))
      → AllDue now m out
      → AllDue now m out'
      → AllDue now m (out ++ out')
  AllDue-append now m [] out' a b = b
  AllDue-append now m (x ∷ out) out' a b = (a.0, AllDue-append now m out out' a.1 b)

  AllDue-within :
      (now : Duration) (m m' : HashMap I (EntryState F W)) (out : List (I × List W))
      → ((id : I) (st : EntryState F W)
          → HashMap.lookup id m' ≡ some st
          → HashMap.lookup id m ≡ some st)
      → AllDue now m' out
      → AllDue now m out
  AllDue-within now m m' [] within a = tt
  AllDue-within now m m' ((id, ws) ∷ out) within ((st, found, due, is), a) =
      ((st, within id st found, due, is), AllDue-within now m m' out within a)

  item-AllDue :
      (now : Duration) (top : HeapItem I) (h : Heap I) (m : HashMap I (EntryState F W))
      → Fits (top ∷ h) m
      → top.deadline ≤ now
      → AllDue now m (expire_item top m).0
  unfolding expire_item
  item-AllDue now top h m fits due = elim (Option-cases (HashMap.lookup top.id m)) [
    | inl gone ↦ rw (gone, expire_item) tt
    | inr (cur, e₁) ↦ elim (Bool-cases (cur.seq == top.seq)) [
      | inl live ↦
          let is = fits top cur (inl refl) e₁ ((==_iff cur.seq top.seq).0 live) in
          rw (e₁, live, expire_item)
            ((cur, e₁, omega (arith, ap (λ x. x.deadline) is, due), refl), tt)
      | inr stale ↦ rw (e₁, stale, expire_item) tt
    ]
  ]

  -- The entries behind a round are of those before it.
  item-Within :
      (top : HeapItem I) (m : HashMap I (EntryState F W))
      → IsDistinct (keys m)
      → Within (expire_item top m).1 m
  item-Within top m d id st found = (item_left top m id st d found).0

  -- The rest of the heap, behind a round.
  rest-Fits :
      (top : HeapItem I) (h : Heap I) (m : HashMap I (EntryState F W))
      → IsDistinct (keys m)
      → Fits (top ∷ h) m
      → Fits h (expire_item top m).1
  rest-Fits top h m d fits =
      Fits-Within h m (expire_item top m).1 (item-Within top m d)
        (λ x st held found same. fits x st (inr held) found same)

  loop-AllDue :
      (now : Duration) (h : Heap I) (m : HashMap I (EntryState F W))
      → IsDistinct (keys m)
      → Fits h m
      → AllDue now m (expire_loop now h m).0
  unfolding expire_loop
  loop-AllDue now [] m d fits = tt
  loop-AllDue now (top ∷ h) m d fits = elim (Bool-cases (ltb now top.deadline)) [
    | inl later ↦ rw later tt
    | inr due ↦
        let m' = (expire_item top m).1 in
        rw due (
          AllDue-append now m (expire_item top m).0 (expire_loop now h m').0
            (item-AllDue now top h m fits (ground (arith, due)))
            (AllDue-within now m m' (expire_loop now h m').0 (item-Within top m d)
              (loop-AllDue now h m' (item-IsDistinct top m d) (rest-Fits top h m d fits))))
  ]

  loop_stays :
      (now : Duration) (h : Heap I) (m : HashMap I (EntryState F W))
      → IsDistinct (keys m)
      → Fits h m
      → (id : I) (st : EntryState F W) → HashMap.lookup id m ≡ some st
      → now < st.deadline
      → HashMap.lookup id (expire_loop now h m).2 ≡ some st
  unfolding expire_loop
  loop_stays now [] m d fits id st found early = found
  loop_stays now (top ∷ h) m d fits id st found early = elim (Bool-cases (ltb now top.deadline)) [
    | inl later ↦ rw later found
    | inr due ↦ rw due (
        loop_stays now h (expire_item top m).1 (item-IsDistinct top m d) (rest-Fits top h m d fits)
          id st (item_stays now top h m fits (ground (arith, due)) id st found early) early)
  ]

  -- `expire` on a table that is indexed and genuine leaves under each id the entry that stood there, if it
  -- is due later than the time given, and nothing else; and what it hands out are the ids and the
  -- waiters of entries that stood there and are due.
  pub expire_exact :
      (t : InFlightTable I F W) (now : Duration) (id : I)
      → IsIndexed t
      → IsGenuine t
      → (HashMap.lookup id (expire t now).1.entries ≡ undue now (HashMap.lookup id t.entries))
        × AllDue now t.entries (expire t now).0
  unfolding expire
  expire_exact t now id x g =
      let r = expire_loop now t.heap t.entries in
      let (s', d', c', left) = loop_left now t.heap t.entries x.distinct x.sorted x.covers in
      (
        rw compact-entries (
            undue_lem now (HashMap.lookup id r.2) (HashMap.lookup id t.entries) (left id)
              (loop_stays now t.heap t.entries x.distinct g.fits id)),
        loop-AllDue now t.heap t.entries x.distinct g.fits,
      )
