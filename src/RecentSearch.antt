-- ===== src/RecentSearch.antt =====
-- app/services/subscription/search/recent_cache.py, and `_default_search` of tasks.py, which takes the
-- results of a search from it while they are fresh. Parameters: the text of an id, and the search with
-- what it changes.
mod Fresh
mod Examples
use Prim.Native.String.{◌++◌}
use togo.Common.{
  ℕ, ◌-◌, String, Bool, true, false, Option, none, some, List, [], ◌∷◌, if◌then◌else◌, ltb, leb,
  seconds, length, take, Dict, get, put, pop, pop_all, keys,
}

abbrev pub recent_ttl : ℕ
recent_ttl = seconds 45

abbrev pub max_recent : ℕ
max_recent = 256

-- The time of a search, and its results.
abbrev pub Recent : Type 0 → Type 0
Recent R = Dict (ℕ × List R)

-- `_key`
abbrev pub recent_key : (ℕ → String) → ℕ → Bool → String
recent_key text_of i incremental = text_of i ++ ":" ++ (if incremental then "1" else "0")

module _ {R : Type 0} where
  -- `sorted(…, key=lambda kv: kv[1][0])`
  abbrev insert_older : String × (ℕ × List R) → Recent R → Recent R
  insert_older e [] = e ∷ []
  insert_older e (f ∷ fs) =
      let rest = insert_older e fs in if leb e.1.0 f.1.0 then e ∷ f ∷ fs else f ∷ rest

  abbrev oldest_first : Recent R → Recent R
  oldest_first [] = []
  oldest_first (e ∷ es) = insert_older e (oldest_first es)

  -- A quarter of the entries goes when the cache is full.
  abbrev pub make_room : Recent R → Recent R
  make_room recent =
      if ltb (length recent) max_recent
      then recent
      else pop_all (keys (take 64 (oldest_first recent))) recent

  abbrev pub still_fresh : String → ℕ → Recent R → Option (ℕ × List R) → Option (List R) × Recent R
  still_fresh key now recent none = (none, recent)
  still_fresh key now recent (some (stamp, results)) =
      if ltb recent_ttl (now - stamp) then (none, pop key recent) else (some results, recent)

  module _ (text_of : ℕ → String) where
    unfoldable pub get_recent_search_results : ℕ → Bool → ℕ → Recent R → Option (List R) × Recent R
    get_recent_search_results i incremental now recent =
        let key = recent_key text_of i incremental in still_fresh key now recent (get key recent)

    unfoldable pub store_recent_search_results : ℕ → List R → Bool → ℕ → Recent R → Recent R
    store_recent_search_results i [] incremental now recent = recent
    store_recent_search_results i (r ∷ results) incremental now recent =
        put (recent_key text_of i incremental) (now, r ∷ results) (make_room recent)

    abbrev pub clear_recent_search_results : Option ℕ → Recent R → Recent R
    clear_recent_search_results none recent = []
    clear_recent_search_results (some i) recent =
        pop (recent_key text_of i false) (pop (recent_key text_of i true) recent)

    -- The search may change the cache, as any other search that runs meanwhile. The first time is that of the look into the cache, the
    -- second that at which the search has ended.
    module _ {S : Type 0} (search : ℕ → Bool → Recent R × S → List R × Recent R × S) where
      abbrev pub after_search : ℕ → Bool → ℕ → List R × Recent R × S → List R × Recent R × S
      after_search i incremental ended (results, recent, state) =
          (results, store_recent_search_results i results incremental ended recent, state)

      abbrev pub or_search : ℕ → Bool → ℕ → S → Option (List R) × Recent R → List R × Recent R × S
      or_search i incremental ended state (some results, recent) = (results, recent, state)
      or_search i incremental ended state (none, recent) =
          after_search i incremental ended (search i incremental (recent, state))

      unfoldable pub default_search : ℕ → Bool → ℕ → ℕ → Recent R → S → List R × Recent R × S
      unfolding get_recent_search_results
      default_search i incremental now ended recent state =
          or_search i incremental ended state (get_recent_search_results i incremental now recent)
