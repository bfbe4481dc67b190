-- ===== src/Tests/Requests.antt =====
-- A table of src/in_flight.rs for four requests, with numbers for ids, fingerprints and waiters.
use shared_rate_limiter.Base.{ℕ, ◌≡◌, refl, subst, none, nat_eq, arith, [], ◌∷◌}
use shared_rate_limiter.HashMap
use shared_rate_limiter.InFlight.Heap.{nat_ord}
use shared_rate_limiter.InFlight.Table.{
  InFlightTable, EntryState, begin, complete, expire, new_entry, joined,
}
use shared_rate_limiter.InFlight.Table
use shared_rate_limiter.InFlight.Requests.{answers, joins, complete-joins}
use shared_rate_limiter.InFlight.Expiry.{IsIndexed}
use shared_rate_limiter.InFlight.Indexed.{new-IsIndexed, begin-IsIndexed, calls-IsIndexed}
use shared_rate_limiter.InFlight.Genuine.{IsGenuine, new-IsGenuine}
use shared_rate_limiter.InFlight.Numbering.{begin-IsGenuine, calls-IsGenuine}
use shared_rate_limiter.InFlight.Exact.{undue, AllDue, expire_exact}
use shared_rate_limiter.InFlight.Capacity.{IsWithin, calls-IsWithin}
use shared_rate_limiter.InFlight.Compaction.{IsCompact, heap-bound}

abbrev four : InFlightTable ℕ ℕ ℕ
four = record { max_in_flight = 4; seq = 0; entries = []; heap = [] }

four-new : Table.new 4 ≡ four
unfolding Table.new
four-new = refl

empty_lookup : HashMap.lookup 1 four.entries ≡ none
unfolding HashMap.lookup
empty_lookup = refl

complete-joins_example :
    (answers four 1 9 50 (100 ∷ 101 ∷ 102 ∷ []) ≡ new_entry ∷ joined ∷ joined ∷ [])
    × ((complete (joins four 1 9 50 (100 ∷ 101 ∷ 102 ∷ [])) 1).0 ≡ 100 ∷ 101 ∷ 102 ∷ [])
complete-joins_example = complete-joins four 1 9 50 100 (101 ∷ 102 ∷ []) empty_lookup (omega arith)

heap-bound_example :
    IsCompact (begin four 1 9 50 100).1
    × IsCompact (complete four 1).1
    × IsCompact (expire four 60).1
heap-bound_example = heap-bound four 1 9 50 100 60 (omega arith) (omega arith)

four-IsIndexed : IsIndexed four
four-IsIndexed = subst IsIndexed four-new (new-IsIndexed 4)

calls-IsIndexed_example :
    IsIndexed {I = ℕ} {F = ℕ} {W = ℕ} (Table.new 3)
    × IsIndexed (begin four 1 9 50 100).1
    × IsIndexed (complete four 1).1
    × IsIndexed (expire four 60).1
calls-IsIndexed_example = calls-IsIndexed 3 four 1 9 50 100 60 four-IsIndexed

four-IsGenuine : IsGenuine four
four-IsGenuine = subst IsGenuine four-new (new-IsGenuine 4)

calls-IsGenuine_example :
    IsGenuine {I = ℕ} {F = ℕ} {W = ℕ} (Table.new 3)
    × IsGenuine (begin four 1 9 50 100).1
    × IsGenuine (complete four 1).1
    × IsGenuine (expire four 60).1
calls-IsGenuine_example =
    calls-IsGenuine 3 four 1 9 50 100 60 (omega arith) four-IsIndexed four-IsGenuine

abbrev one_waits : InFlightTable ℕ ℕ ℕ
one_waits = (begin four 1 9 50 100).1

expire_exact_example :
    (HashMap.lookup 1 (expire one_waits 60).1.entries
      ≡ undue 60 (HashMap.lookup 1 one_waits.entries))
    × AllDue 60 one_waits.entries (expire one_waits 60).0
expire_exact_example =
    expire_exact one_waits 60 1 (begin-IsIndexed four 1 9 50 100 four-IsIndexed)
      (begin-IsGenuine four 1 9 50 100 (omega arith) four-IsIndexed four-IsGenuine)

calls-IsWithin_example :
    IsWithin {I = ℕ} {F = ℕ} {W = ℕ} (Table.new 3)
    × IsWithin (begin four 1 9 50 100).1
    × IsWithin (complete four 1).1
    × IsWithin (expire four 60).1
calls-IsWithin_example = calls-IsWithin 3 four 1 9 50 100 60 (omega arith)
