-- ===== src/Concurrency/Examples.antt =====
-- A search pool under rising pressure, and a registry with one held lock.
use togo.Common.{ℕ, ◌<◌, ◌≡◌, refl, true, some, List, [], ◌∷◌, arith, get, Unique}
use togo.Concurrency.{Registry}
use togo.Concurrency.Permits.{Pool, Event, request, release, capacity, step, run, shrink_stays_over}

abbrev pool : ℕ → ℕ → Pool
pool value held = record {
  globals = record { semaphore = some (record { loop = 1; value = value }); limit = 4 };
  held = held;
}

-- Two tasks run, the limit falls to one, and both end: three tasks may start.
abbrev drained : List Event
drained = release ∷ release ∷ request 1 1 ∷ []

shrink_stays_over_example : 1 < capacity (run drained (step (request 1 1) (pool 2 2)))
shrink_stays_over_example =
    shrink_stays_over 1 1 drained (pool 2 2) refl (omega arith) (omega arith) refl (refl, refl, tt)

abbrev held : Registry
held = record {
  loop = some 1;
  locks = ("channel", record { ident = 5; locked = true }) ∷ [];
  next = 6;
}

held-Unique : Unique held.locks
unfolding Unique get
held-Unique = (refl, tt)

found : get "channel" held.locks ≡ some (record { ident = 5; locked = true })
unfolding get
found = refl
