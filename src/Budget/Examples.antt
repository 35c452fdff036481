-- ===== src/Budget/Examples.antt =====
-- A window with two threads, and a cache with one answer.
use togo.Common.{ℕ, ◌+◌, ◌≤◌, List, [], ◌∷◌, arith}
use togo.Budget.{Budget, Store, max_search}
use togo.Budget.Window.{Step, roll, search, granted, granted-le_max_search}

abbrev nearly_spent : Budget
nearly_spent = record { search_calls = 39; validate_calls = 3; window_started = 1000 }

-- Two threads that both roll before either takes: one of them is refused.
abbrev race : List Step
race = roll 2000 ∷ roll 2001 ∷ search ∷ search ∷ []

granted-le_max_search_example : granted race nearly_spent + 39 ≤ max_search
granted-le_max_search_example =
    granted-le_max_search race nearly_spent (omega arith) (omega arith) (omega arith)

abbrev one : Store ℕ
one = ("a", (500, 7)) ∷ []
