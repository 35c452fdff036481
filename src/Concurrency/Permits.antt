-- ===== src/Concurrency/Permits.antt =====
-- How many tasks may run beside each other: the permits of the semaphore and those that tasks hold.
use togo.Common.{
  ℕ, ◌+◌, ◌-◌, ◌≤◌, ◌<◌, ◌≡◌, ◌≢◌, refl, ◌∙◌, Option, none, some, List, [], ◌∷◌, arith, ltb,
  if◌then◌else◌, max,
}
use togo.Concurrency.{
  Globals, refresh, desired_search_concurrency, desired_dialog_concurrency, search_all_wave_size,
}

-- The globals, and the permits of their semaphore that tasks hold.
pub record Pool : Type 0 where
  pub globals : Globals
  pub held : ℕ

abbrev pub free : Globals → ℕ
free g = elim g.semaphore [ none ↦ 0 | some s ↦ s.value ]

-- The tasks that may come to run at once.
abbrev pub capacity : Pool → ℕ
capacity p = free p.globals + p.held

pub data Event : Type 0 where
  request : ℕ → ℕ → Event
  acquire : Event
  release : Event

abbrev with_value : (ℕ → ℕ) → Globals → Globals
with_value f g = record g {
  semaphore = elim g.semaphore [ none ↦ none | some s ↦ some (record s { value = f s.value }) ];
}

-- A semaphore that is built anew has no holders; the tasks on the one before release that one.
pub step : Event → Pool → Pool
step (request desired loop) p =
    let (g, anew) = refresh desired loop p.globals in
    record { globals = g; held = if anew then 0 else p.held }
step acquire p =
    if ltb 0 (free p.globals)
    then record { globals = with_value (λ v. v - 1) p.globals; held = p.held + 1 }
    else p
step release p =
    if ltb 0 p.held
    then record { globals = with_value (λ v. v + 1) p.globals; held = p.held - 1 }
    else p

pub run : List Event → Pool → Pool
run [] p = p
run (e ∷ es) p = run es (step e p)

-- Whatever the interval of the Telegram gate is, the limit of searches is from 1 to 4, that of
-- dialog searches from 1 to 3, and a wave has as many searches as the limit or one more.
pub desired_bounds :
    (interval : Option ℕ)
    → (1 ≤ desired_search_concurrency interval)
      × (desired_search_concurrency interval ≤ 4)
      × (1 ≤ desired_dialog_concurrency interval)
      × (desired_dialog_concurrency interval ≤ 3)
      × (desired_search_concurrency interval ≤ search_all_wave_size interval)
      × (search_all_wave_size interval ≤ desired_search_concurrency interval + 1)
unfolding desired_dialog_concurrency search_all_wave_size
desired_bounds interval = ground arith

-- A call for a semaphore leaves no more permits, free and held, than there were before it or than
-- it wants, whichever is more.
pub capacity-request :
    (desired loop : ℕ) (p : Pool)
    → capacity (step (request desired loop) p) ≤ max desired (capacity p)
unfolding step refresh
capacity-request desired loop p = ground arith

-- Who is on this loop with a semaphore.
abbrev pub OnLoop : ℕ → Pool → Type 0
OnLoop loop p = p.globals.semaphore ≡ some (record { loop = loop; value = free p.globals })

-- While no task holds a permit and as many are free as the stored limit, which is not 0, a call
-- leaves exactly as many permits as it wants.
pub capacity-request_idle :
    (desired loop : ℕ) (p : Pool)
    → p.held ≡ 0
    → free p.globals ≡ p.globals.limit
    → p.globals.limit ≢ 0
    → capacity (step (request desired loop) p) ≡ desired
unfolding step refresh
capacity-request_idle desired loop p idle full some_limit = ground arith

-- When the limit falls while a task holds a permit, more permits are left than are wanted.
pub shrink_leaves_excess :
    (desired loop : ℕ) (p : Pool)
    → OnLoop loop p
    → desired < p.globals.limit
    → 0 < p.held
    → capacity p ≡ p.globals.limit
    → desired < capacity (step (request desired loop) p)
unfolding step refresh
shrink_leaves_excess desired loop p on lower busy whole = ground arith

abbrev Settled : ℕ → ℕ → Pool → Type 0
Settled desired loop p = OnLoop loop p × (p.globals.limit ≡ desired)

-- Events of one loop and one wish.
abbrev pub Wishes : ℕ → ℕ → List Event → Type 0
Wishes desired loop [] = Unit
Wishes desired loop (request d l ∷ es) = (d ≡ desired) × (l ≡ loop) × Wishes desired loop es
Wishes desired loop (e ∷ es) = Wishes desired loop es

step-Settled :
    (desired loop : ℕ) (e : Event) (es : List Event) (p : Pool)
    → Settled desired loop p
    → Wishes desired loop (e ∷ es)
    → Settled desired loop (step e p) × (capacity (step e p) ≡ capacity p) × Wishes desired loop es
unfolding step refresh
step-Settled desired loop (request d l) es p (on, lim) w =
    ((ground arith, ground arith), ground arith, w.2)
step-Settled desired loop acquire es p (on, lim) w = ((ground arith, ground arith), ground arith, w)
step-Settled desired loop release es p (on, lim) w = ((ground arith, ground arith), ground arith, w)

capacity-run :
    (desired loop : ℕ) (es : List Event) (p : Pool)
    → Settled desired loop p
    → Wishes desired loop es
    → capacity (run es p) ≡ capacity p
unfolding run
capacity-run desired loop [] p s w = refl
capacity-run desired loop (e ∷ es) p s w =
    let (s', same, w') = step-Settled desired loop e es p s w in
    capacity-run desired loop es (step e p) s' w' ∙ same

Settled-shrink :
    (desired loop : ℕ) (p : Pool)
    → OnLoop loop p
    → desired < p.globals.limit
    → Settled desired loop (step (request desired loop) p)
unfolding step refresh
Settled-shrink desired loop p on lower = (ground arith, ground arith)

-- When the limit falls while a task holds a permit of a semaphore that has as many permits as its
-- limit, then from the next call on more tasks than are wanted may run at once, for as long as the
-- same limit is wanted: no acquire, release or further call brings the permits down to it.
pub shrink_stays_over :
    (desired loop : ℕ) (es : List Event) (p : Pool)
    → OnLoop loop p
    → desired < p.globals.limit
    → 0 < p.held
    → capacity p ≡ p.globals.limit
    → Wishes desired loop es
    → desired < capacity (run es (step (request desired loop) p))
shrink_stays_over desired loop es p on lower busy whole w =
    rw
      (capacity-run desired loop es (step (request desired loop) p)
        (Settled-shrink desired loop p on lower) w)
      (shrink_leaves_excess desired loop p on lower busy whole)
