-- ===== src/SourceStats/Examples.antt =====
-- The statistics of sources on concrete calls: tests and worked instances.
use togo.Common.{String, ◌≡◌, refl, Bool, true, false, some, List, [], ◌∷◌, Dict, get, put}
use togo.SourceStats.{Stat, Fetch, record_source_match, record_match}
use togo.SourceStats.Key.{split_colon}
use togo.SourceStats.Counts.{
  Call, fetch, match_of, after_calls, successes, failures, matches, after_calls-counts,
}

abbrev fetch_of : String → Bool → Fetch
fetch_of key ok = record {
  source_key = key;
  name = key;
  type_of_source = "rss";
  ok = ok;
  items = 0;
  latency_ms = some 300;
  error = "";
}

abbrev no_stats : Dict Stat
no_stats = []

test_match_of_name :
    matches (get "rss:a" (record_source_match (λ s. s) (some "rss:a") 5 no_stats)) ≡ 1
unfolding record_source_match record_match split_colon get put
test_match_of_name = refl

-- Two fetches and a match of one source, and a match of another.
abbrev calls : List Call
calls =
    fetch (fetch_of "rss:a" true) 1
    ∷ fetch (fetch_of "rss:a" false) 2
    ∷ match_of "rss:a" "a" "rss" 3
    ∷ match_of "rss:b" "b" "rss" 4
    ∷ []

after_calls-counts_example :
    (successes (get "rss:a" (after_calls calls no_stats)) ≡ 1)
    × (failures (get "rss:a" (after_calls calls no_stats)) ≡ 1)
    × (matches (get "rss:a" (after_calls calls no_stats)) ≡ 1)
unfolding get
after_calls-counts_example = after_calls-counts "rss:a" calls no_stats
