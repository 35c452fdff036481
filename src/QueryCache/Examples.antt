-- ===== src/QueryCache/Examples.antt =====
-- The query cache on concrete entries: tests and worked instances.
use togo.Common.{
  ℕ, String, ◌≡◌, refl, none, some, [], ◌∷◌, arith, if◌then◌else◌, leb, str_eq, Unique, get, put,
  pop, pop_all, false, ◌+◌,
}
use togo.QueryCache.{Cache, ttl_of, get_cached_query_results, set_cached_query_results}
use togo.QueryCache.Key.{cache_key, is_blank}
use togo.QueryCache.Lookup.{get-set_cached_query_results}

abbrev strip : String → String
strip s = s

abbrev empty_cache : Cache ℕ
empty_cache = []

abbrev one_entry : Cache ℕ
one_entry = ("channel\0old", (5, 7 ∷ [])) ∷ []

one_entry-Unique : Unique one_entry
unfolding Unique get
one_entry-Unique = (refl, tt)

-- The set purges the entry that has expired.
test_purge :
    set_cached_query_results strip "channel" "film" (1 ∷ []) 10 one_entry
    ≡ ("channel\0film", (180000010, 1 ∷ [])) ∷ []
unfolding set_cached_query_results is_blank cache_key pop_all put pop
test_purge = refl

test_nothing_found_for_long :
    (get_cached_query_results strip "channel" "film" 45000010
      (set_cached_query_results strip "channel" "film" [] 10 empty_cache)).0
    ≡ none
unfolding get_cached_query_results set_cached_query_results is_blank cache_key get pop_all put
test_nothing_found_for_long = refl

film_is_named : is_blank (cache_key strip "channel" "film") ≡ false
unfolding cache_key is_blank
film_is_named = refl

get-set_cached_query_results_example :
    (get_cached_query_results strip "channel" "old" 20
      (set_cached_query_results strip "channel" "film" (1 ∷ []) 10 one_entry)).0
    ≡ (if str_eq (cache_key strip "channel" "film") (cache_key strip "channel" "old")
        then (if leb (10 + ttl_of {R = ℕ} (1 ∷ [])) 20 then none else some (1 ∷ []))
        else (get_cached_query_results strip "channel" "old" 20 one_entry).0)
get-set_cached_query_results_example =
    get-set_cached_query_results strip "channel" "film" "channel" "old" (1 ∷ []) 10 20 one_entry
      one_entry-Unique (omega arith) (omega arith) film_is_named
