-- ===== src/InFlight/Requests.antt =====
-- Requests that share an entry of src/in_flight.rs.
use mathlib.Core.Path.{ap₂}
use shared_rate_limiter.Base.{
  map, ◌<◌, ◌≡◌, ◌∙◌, ap, refl, sym, none, some, List, [], ◌∷◌, ◌++◌, Eq, arith, leb, false,
}
use shared_rate_limiter.Types.{Duration}
use shared_rate_limiter.HashMap
use shared_rate_limiter.HashMap.{HashMap}
use shared_rate_limiter.HashMap.Laws.{lookup-insert_self}
use shared_rate_limiter.InFlight.Waiters
use shared_rate_limiter.InFlight.Waiters.{into_vec-push}
use shared_rate_limiter.InFlight.Heap.{Ord}
use shared_rate_limiter.InFlight.Table
use shared_rate_limiter.InFlight.Table.{
  InFlightTable, EntryState, BeginResult, insert_new, begin, complete, expire, maybe_compact_heap,
  compact_heap, heap_of, item_of, new_entry, joined, expire_item, expire_loop,
}
use shared_rate_limiter.InFlight.Compaction.{compact-entries}

append-nil {ℓ} : {A : Type ℓ} (xs : List A) → xs ++ [] ≡ xs
append-nil [] = refl
append-nil (x ∷ xs) = ap (◌∷◌ x) (append-nil xs)

append_assoc {ℓ} : {A : Type ℓ} (xs ys zs : List A) → (xs ++ ys) ++ zs ≡ xs ++ (ys ++ zs)
append_assoc [] ys zs = refl
append_assoc (x ∷ xs) ys zs = ap (◌∷◌ x) (append_assoc xs ys zs)

module _ {I F W : Type 0} ⦃e : Eq I⦄ ⦃f : Eq F⦄ ⦃o : Ord I⦄ where
  -- The answers to the same request again, once for each waiter.
  abbrev pub answers : InFlightTable I F W → I → F → Duration → List W → List BeginResult
  answers t id fp deadline [] = []
  answers t id fp deadline (w ∷ ws) =
      (begin t id fp deadline w).0 ∷ answers (begin t id fp deadline w).1 id fp deadline ws

  -- The table behind them.
  abbrev pub joins : InFlightTable I F W → I → F → Duration → List W → InFlightTable I F W
  joins t id fp deadline [] = t
  joins t id fp deadline (w ∷ ws) = joins (begin t id fp deadline w).1 id fp deadline ws

  begin_present :
      (t : InFlightTable I F W) (id : I) (deadline : Duration) (w : W) (st : EntryState F W)
      → HashMap.lookup id t.entries ≡ some st
      → HashMap.lookup id (begin t id st.fp deadline w).1.entries
        ≡ some (record st { waiters = Waiters.push st.waiters w })
  unfolding begin
  begin_present t id deadline w st h =
      rw (h, (f.beq_iff st.fp st.fp).1 refl, begin) (lookup-insert_self id _ t.entries)

  begin_answer :
      (t : InFlightTable I F W) (id : I) (deadline : Duration) (w : W) (st : EntryState F W)
      → HashMap.lookup id t.entries ≡ some st
      → (begin t id st.fp deadline w).0 ≡ joined
  unfolding begin
  begin_answer t id deadline w st h = rw (h, (f.beq_iff st.fp st.fp).1 refl, begin) refl

  answers_joined :
      (t : InFlightTable I F W) (id : I) (deadline : Duration) (ws : List W) (st : EntryState F W)
      → HashMap.lookup id t.entries ≡ some st
      → answers t id st.fp deadline ws ≡ map (λ _. joined) ws
  unfolding begin
  answers_joined t id deadline [] st h = refl
  answers_joined t id deadline (w ∷ ws) st h = ap₂ ◌∷◌ (begin_answer t id deadline w st h) (
      answers_joined (begin t id st.fp deadline w).1 id deadline ws
        (record st { waiters = Waiters.push st.waiters w }) (begin_present t id deadline w st h))

  complete_present :
      (t : InFlightTable I F W) (id : I) (st : EntryState F W)
      → HashMap.lookup id t.entries ≡ some st
      → (complete t id).0 ≡ Waiters.into_vec st.waiters
  unfolding complete
  complete_present t id st h = rw (h, complete) refl

  complete_joined :
      (t : InFlightTable I F W) (id : I) (deadline : Duration) (ws : List W) (st : EntryState F W)
      → HashMap.lookup id t.entries ≡ some st
      → (complete (joins t id st.fp deadline ws) id).0 ≡ Waiters.into_vec st.waiters ++ ws
  complete_joined t id deadline [] st h = complete_present t id st h ∙ sym (append-nil _)
  complete_joined t id deadline (w ∷ ws) st h =
      complete_joined (begin t id st.fp deadline w).1 id deadline ws
        (record st { waiters = Waiters.push st.waiters w }) (begin_present t id deadline w st h)
      ∙ ap (λ v. v ++ ws) (into_vec-push st.waiters w)
      ∙ append_assoc (Waiters.into_vec st.waiters) (w ∷ []) ws

  leb-room :
      (t : InFlightTable I F W)
      → HashMap.len t.entries < t.max_in_flight
      → leb t.max_in_flight (HashMap.len t.entries) ≡ false
  leb-room t room = ground arith

  -- A request that is not in flight, in a table with room, starts a new entry.
  begin_absent :
      (t : InFlightTable I F W) (id : I) (fp : F) (deadline : Duration) (w : W)
      → HashMap.lookup id t.entries ≡ none
      → HashMap.len t.entries < t.max_in_flight
      → HashMap.lookup id (begin t id fp deadline w).1.entries
        ≡ some (record {
          fp = fp;
          deadline = deadline;
          waiters = Waiters.one w;
          seq = Table.next_seq t;
        })
  unfolding begin insert_new
  begin_absent t id fp deadline w absent room =
      rw (absent, begin, leb-room t room) (rw compact-entries (lookup-insert_self id _ t.entries))

  -- A request that is not in flight, in a table with room, is sent once for all who ask for it: of the
  -- requests with its fingerprint, the first is answered as new, and each later one as joined. The
  -- completion hands out all the waiters in the order in which they came.
  pub complete-joins :
      (t : InFlightTable I F W) (id : I) (fp : F) (deadline : Duration) (w : W) (ws : List W)
      → HashMap.lookup id t.entries ≡ none
      → HashMap.len t.entries < t.max_in_flight
      → (answers t id fp deadline (w ∷ ws) ≡ new_entry ∷ map (λ _. joined) ws)
        × ((complete (joins t id fp deadline (w ∷ ws)) id).0 ≡ w ∷ ws)
  unfolding begin Waiters.into_vec
  complete-joins t id fp deadline w ws absent room =
      let first = begin_absent t id fp deadline w absent room in
      (
        ap₂ ◌∷◌ (rw (absent, begin, leb-room t room) refl)
            (answers_joined (begin t id fp deadline w).1 id deadline ws _ first),
        complete_joined (begin t id fp deadline w).1 id deadline ws _ first,
      )
