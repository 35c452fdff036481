-- ===== src/RecentSearch/Examples.antt =====
-- A search that counts how often it was run: a worked instance.
use togo.Common.{ℕ, ◌+◌, ◌≡◌, refl, arith, String, Bool, false, none, List, [], ◌∷◌, seconds, get}
use togo.RecentSearch.{Recent, get_recent_search_results, default_search}
use togo.RecentSearch.Fresh.{is_empty, default_search-again}

abbrev text_of : ℕ → String
text_of i = "7"

abbrev search : ℕ → Bool → Recent String × ℕ → List String × Recent String × ℕ
search i incremental (recent, runs) = ("a" ∷ [], recent, runs + 1)

-- An entry of the key that expires after 45 seconds.
abbrev expired : Recent String
expired = ("7:0", (0, "b" ∷ [])) ∷ []

abbrev first : List String × Recent String × ℕ
first = default_search text_of search 7 false (seconds 60) (seconds 65) expired 0

nothing_fresh :
    (get_recent_search_results {R = String} text_of 7 false (seconds 60) expired).0 ≡ none
unfolding get_recent_search_results get
nothing_fresh = refl

found_one : is_empty text_of search 7 false first.0 ≡ false
unfolding default_search get_recent_search_results get
found_one = refl

default_search-again_example :
    default_search text_of search 7 false (seconds 90) (seconds 90) first.1 first.2 ≡ first
default_search-again_example =
    default_search-again text_of search 7 false (seconds 60) (seconds 65) (seconds 90) expired 0
      nothing_fresh found_one (omega arith)
