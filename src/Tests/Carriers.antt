-- ===== src/Tests/Carriers.antt =====
-- A limiter of src/limiter.rs whose permits go into carriers of src/in_flight.rs.
use mathlib.Core.List.{Perm}
use shared_rate_limiter.Base.{ℕ, nat_eq, refl, arith, [], ◌∷◌, ◌++◌}
use shared_rate_limiter.Types.{confirmed}
use shared_rate_limiter.Limiter.History
use shared_rate_limiter.Limiter.History.{Reach}
use shared_rate_limiter.InFlight.Waiters
use shared_rate_limiter.InFlight.Carrier
use shared_rate_limiter.InFlight.Carrier.{LimiterInFlight}
use shared_rate_limiter.InFlight.Fleet.{
  Fleet, Run, here, next, sends, joins, finalizes, start, carried, waiting,
}
use shared_rate_limiter.InFlight.Refinement.{world, Run-Reach}
use shared_rate_limiter.InFlight.Waiting.{Run-Accounts}
use shared_rate_limiter.Tests.Calls.{cfg, two, two-IsCost, granted, acquired, try_acquire_grants}

-- A request with one waiter, and with two.
abbrev sent_one : LimiterInFlight ℕ
sent_one = record { permit = granted; deadline = 30; waiters = Waiters.one 100 }

abbrev sent_two : LimiterInFlight ℕ
sent_two = record { permit = granted; deadline = 30; waiters = Waiters.many (100 ∷ 101 ∷ []) }

abbrev first : Fleet ℕ
first = record {
  limiter = acquired.limiter;
  slots = carried sent_one ∷ [];
  taken = 100 ∷ [];
  answered = [];
}

abbrev second : Fleet ℕ
second = record {
  limiter = acquired.limiter;
  slots = carried sent_two ∷ [];
  taken = 101 ∷ 100 ∷ [];
  answered = [];
}

abbrev third : Fleet ℕ
third = record {
  limiter = Carrier.settle acquired.limiter granted confirmed 9;
  slots = [];
  taken = 101 ∷ 100 ∷ [];
  answered = 100 ∷ 101 ∷ [];
}

-- A request is sent, another joins it, and it is finalized.
Run-first : Run (start cfg 0) first
unfolding Carrier.new
Run-first = next here (sends 7 two 3 30 100 two-IsCost (omega arith) (rw try_acquire_grants refl))

Run-second : Run (start cfg 0) second
unfolding Carrier.join Waiters.push
Run-second = next Run-first (joins [] sent_one [] 101 refl refl)

Run-third : Run (start cfg 0) third
unfolding Carrier.finalize Waiters.into_vec
Run-third = next Run-second (finalizes [] sent_two [] confirmed 9 refl refl)

Run-Reach_example : Reach (History.start cfg 0) (world third)
Run-Reach_example = Run-Reach cfg 0 Run-third

Run-Accounts_example : Perm third.taken (third.answered ++ waiting third.slots)
Run-Accounts_example = Run-Accounts cfg 0 Run-third
