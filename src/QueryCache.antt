-- ===== src/QueryCache.antt =====
-- app/services/adapters/telegram/history/query_result_cache.py: the results of a query at a source,
-- kept for three minutes, or for less when there are none. Parameter: Python's `str.strip`.
pub mod Key
pub mod Lookup
mod Examples
use togo.Common.{
  ℕ, ◌+◌, ◌-◌, String, [], ◌∷◌, Bool, true, false, ◌&&◌, ◌||◌, Option, none, some, List,
  if◌then◌else◌, leb, seconds, length, take, Dict, get, put, pop, pop_all, keys,
}
use togo.QueryCache.Key.{cache_key, is_blank}

abbrev pub positive_ttl : ℕ
positive_ttl = seconds 180

abbrev pub negative_ttl : ℕ
negative_ttl = seconds 45

abbrev pub max_cached : ℕ
max_cached = 512

-- The time at which an entry expires, and its results.
abbrev pub Cache : Type 0 → Type 0
Cache R = Dict (ℕ × List R)

module _ {R : Type 0} where
  abbrev pub expired : ℕ → Cache R → List String
  expired now [] = []
  expired now ((k, (expires, results)) ∷ d) =
      let rest = expired now d in if leb expires now then k ∷ rest else rest

  -- `sorted(_CACHE.items(), key=lambda item: item[1][0])`, which keeps the order of equal times.
  abbrev insert_expiring : String × (ℕ × List R) → Cache R → Cache R
  insert_expiring e [] = e ∷ []
  insert_expiring e (f ∷ fs) =
      let rest = insert_expiring e fs in if leb e.1.0 f.1.0 then e ∷ f ∷ fs else f ∷ rest

  abbrev by_expiry : Cache R → Cache R
  by_expiry [] = []
  by_expiry (e ∷ es) = insert_expiring e (by_expiry es)

  abbrev pub drop_overflow : Cache R → Cache R
  drop_overflow cache =
      if leb (length cache) max_cached
      then cache
      else pop_all (keys (take (length cache - max_cached) (by_expiry cache))) cache

  unfoldable pub purge_expired : ℕ → Cache R → Cache R
  purge_expired now cache = drop_overflow (pop_all (expired now cache) cache)

  abbrev pub ttl_of : List R → ℕ
  ttl_of [] = negative_ttl
  ttl_of (r ∷ results) = positive_ttl

  abbrev pub found : String → ℕ → Cache R → Option (ℕ × List R) → Option (List R) × Cache R
  found key now cache none = (none, cache)
  found key now cache (some (expires, results)) =
      if leb expires now then (none, pop key cache) else (some results, cache)

  module _ (strip : String → String) where
    unfoldable pub get_cached_query_results :
        String → String → ℕ → Cache R → Option (List R) × Cache R
    get_cached_query_results source query now cache =
        let key = cache_key strip source query in
        if is_blank key then (none, cache) else found key now cache (get key cache)

    unfoldable pub set_cached_query_results : String → String → List R → ℕ → Cache R → Cache R
    unfolding purge_expired
    set_cached_query_results source query results now cache =
        let key = cache_key strip source query in
        if is_blank key
        then cache
        else purge_expired now (put key (now + ttl_of results, results) cache)
