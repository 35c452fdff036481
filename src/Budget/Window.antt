-- ===== src/Budget/Window.antt =====
-- How many paid calls a window lets through.
use togo.Common.{ℕ, ◌+◌, ◌≤◌, ◌<◌, ◌≡◌, List, [], ◌∷◌, arith, if◌then◌else◌, leb, ltb, ◌==◌, ◌||◌}
use togo.Budget.{
  Budget, window, max_search, roll_window, take_search, take_validate, acquire_search_slot,
}

-- The atomic steps of the threads: every thread rolls the window at the time that it read before
-- the lock, and takes its slot in a second step, so the steps of several threads interleave.
pub data Step : Type 0 where
  roll : ℕ → Step
  search : Step
  validate : Step

pub step : Step → Budget → Budget
step (roll now) b = roll_window now b
step search b = (take_search b).1
step validate b = (take_validate b).1

unfoldable pub run : List Step → Budget → Budget
run [] b = b
run (s ∷ steps) b = run steps (step s b)

abbrev granted_by : Step → Budget → ℕ
granted_by (roll now) b = 0
granted_by search b = if (take_search b).0 then 1 else 0
granted_by validate b = 0

-- The search slots that a run of steps grants.
pub granted : List Step → Budget → ℕ
granted [] b = 0
granted (s ∷ steps) b = granted_by s b + granted steps (step s b)

-- Every time that the steps roll at lies in the window that began at `started`.
abbrev pub Within : ℕ → List Step → Type 0
Within started [] = Unit
Within started (roll now ∷ steps) = (now < started + window) × Within started steps
Within started (s ∷ steps) = Within started steps

-- Within one window the search slots that are granted, to any number of threads in any
-- interleaving, and those that were taken before are forty at most.
pub granted-le_max_search :
    (steps : List Step) (b : Budget)
    → 0 < b.window_started
    → b.search_calls ≤ max_search
    → Within b.window_started steps
    → granted steps b + b.search_calls ≤ max_search
unfolding granted step roll_window take_search take_validate
granted-le_max_search [] b s h w = omega arith
granted-le_max_search (roll now ∷ steps) b s h w =
    ground (arith, granted-le_max_search steps b s h w.1)
granted-le_max_search (search ∷ steps) b s h w =
    ground (arith, granted-le_max_search steps (take_search b).1)
granted-le_max_search (validate ∷ steps) b s h w =
    ground (arith, granted-le_max_search steps (take_validate b).1)

-- An acquisition is granted exactly when the window that holds at that time has a slot left, and it
-- takes that slot; a window that has run out starts again with none taken.
pub acquire_search_slot_lem :
    (now : ℕ) (b : Budget)
    → let calls =
        if b.window_started == 0 || leb (b.window_started + window) now
        then 0
        else b.search_calls in
      ((acquire_search_slot now b).0 ≡ ltb calls max_search)
      × ((acquire_search_slot now b).1.search_calls
          ≡ (if ltb calls max_search then calls + 1 else calls))
unfolding acquire_search_slot
acquire_search_slot_lem now b = ground arith
