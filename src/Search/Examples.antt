-- ===== src/Search/Examples.antt =====
-- Searches of a series that misses its second episode: tests and worked instances.
use togo.Common.{
  if◌then◌else◌, ◌==◌, ℕ, ◌≡◌, refl, Bool, true, false, ◌&&◌, Option, none, some, List, [], ◌∷◌,
  map,
}
use togo.Library.{Tracked}
use togo.Matching.{Result}
use togo.Matching.Fixture.{texts, series, tracked, result}
use togo.Saving.{existing_resource_rows}
use togo.Saving.Fixture.{links, quiet, refuse, world}
use togo.Saving.Insert.{World}
use togo.Search.{has_missing_episodes}
use togo.Search.Attempt.{
  retry_stuck_pending_resources, deliver_all, finally_checked, with_fallback, Sourced, groups,
  search_and_attach_resources,
}
use togo.Search.Ed2k.{attach_ed2k}
use togo.Search.Needed.{creates_all, is_of_use, attach_ed2k-creates_of_use}
use togo.Search.Once.{rows_of, search_all_active_subscriptions-rows}
use togo.Search.Reached.{search_and_attach_resources-with_fallback}
use togo.Search.Stages.{Query, Found, search_telegram_first}
use togo.Episodes.{
  expand_episode_range, all_tmdb_episode_keys, owned_episode_keys, missing_episode_keys,
}
use togo.Episodes.Texts.{season_numbers_from_text, episodes_from_text}
use togo.Episodes.Packs.{pack_episode_keys_from_text, episode_keys_from_text_for_subscription}
use togo.SourceStats.Key.{split_colon}
use togo.Library.{
  subscription_is_complete, subscription_should_hide, result_matches_missing_episodes,
}
use togo.Matching.{quality_rule_skip_reason, result_matches_subscription}
use togo.Matching.Decision.{
  filled, candidate_reject_reason, decide_resource_candidate, resource_allowed,
}
use togo.Saving.{canonical_115_url, resource_dedupe_key, resource_already_exists}
use togo.Saving.Insert.{insert_resource, insert_resource_safely}
use togo.Saving.Telegram.{save_telegram_result, save_in_order, attach_telegram_results}
use togo.Search.{should_skip_full_after_fast, summary_needs_full_retry}
use togo.Search.Stages.{run_telegram_search_stage, search_ed2k, search_full}
use togo.Search.Ed2k.{handle_link, save_links}
use togo.Search.Unique.{HasUniqueLinks}
use togo.Search.Unique.Stages.{search_telegram_first-HasUniqueLinks}
use togo.Search.Tally.{totals_of, search_all_active_subscriptions-totals}
use togo.Search.Waves.{
  timed_out, Row, Searched, Checked, found_new, search_all_active_subscriptions,
}
use togo.Scheduling.Recent.{Listed}

abbrev ed2k_link : Result
ed2k_link = record result { url = "ed2k://|file|a|1|0|/" }

abbrev history : Query → List Result
history query = result ∷ ed2k_link ∷ []

abbrev sources : Tracked → Sourced
sources s = groups ((result ∷ []) ∷ [])

attach_ed2k-creates_of_use_example :
    creates_all texts links quiet tracked
      (is_of_use texts links quiet tracked (existing_resource_rows 1 world.rows))
      (attach_ed2k texts links quiet 9 tracked (ed2k_link ∷ ed2k_link ∷ []) world)
    ≡ true
attach_ed2k-creates_of_use_example =
    attach_ed2k-creates_of_use texts links quiet tracked 9 (ed2k_link ∷ ed2k_link ∷ []) world

search_telegram_first-HasUniqueLinks_example :
    HasUniqueLinks texts links quiet tracked
      (search_telegram_first texts links quiet refuse history 9 tracked false world).1
search_telegram_first-HasUniqueLinks_example =
    search_telegram_first-HasUniqueLinks texts links quiet refuse history 9 tracked false world refl

abbrev listed : Listed
listed = record { base = series; last_checked_text = "2024"; last_checked = some 0 }

abbrev other : Listed
other = record listed { base = record series { id = 2 } }

abbrev row_of : ℕ → Listed → Row
row_of wave s = record { tracked = record tracked { base = s.base }; last_checked_text = "2024" }

abbrev one_found : ℕ → Bool → Row → Searched
one_found wave incremental r = found_new 1

abbrev paused : Listed
paused = record listed { base = record series { id = 3 } }

abbrev row_now : Listed → Row
row_now s = record {
  tracked = record tracked {
    base = s.base;
    status = if s.base.id == 3 then "paused" else "active";
  };
  last_checked_text = "2024";
}

abbrev second_fails : Bool → Row → Searched
second_fails incremental r = if r.tracked.base.id == 2 then timed_out else found_new 3

search_all_active_subscriptions-totals_example :
    totals_of (
      search_all_active_subscriptions texts.fullmatch
        (λ i. row_now)
        (λ i. second_fails)
        (λ wave. 1)
        9
        true
        (listed ∷ other ∷ paused ∷ [])
        [])
    ≡ some (record { searched = 2; count = 3; failed = 1 })
search_all_active_subscriptions-totals_example =
    search_all_active_subscriptions-totals texts.fullmatch row_now second_fails (λ wave. 1) 9 true
      (listed ∷ other ∷ paused ∷ []) []

abbrev checked_rows : List Checked
checked_rows =
    record { id = 1; last_checked_at = none } ∷ record { id = 3; last_checked_at = some 4 } ∷ []

search_all_active_subscriptions-rows_example :
    rows_of (
      search_all_active_subscriptions texts.fullmatch row_of one_found
        (λ wave. 1)
        9
        true
        (listed ∷ other ∷ [])
        checked_rows)
    ≡ some (
        record { id = 1; last_checked_at = some 9 }
        ∷ record { id = 3; last_checked_at = some 4 }
        ∷ [])
search_all_active_subscriptions-rows_example =
    search_all_active_subscriptions-rows texts.fullmatch row_of one_found (λ wave. 1) 9 true
      (listed ∷ other ∷ []) checked_rows (λ wave s. refl)

abbrev searched : Option Found × World
searched = search_telegram_first texts links quiet refuse history 9 tracked false world

abbrev nothing_found : Found
nothing_found = record {
  created = [];
  matches = [];
  summary = record {
    raw_matched = 0;
    available_matched = 0;
    created_count = 0;
    duplicates = 0;
    save_failed = 0;
    from_index = false;
  };
}

abbrev found_in : Option Found → Found
found_in none = nothing_found
found_in (some found) = found

-- The quick search makes resource 5, and the full search that follows finds it known: it is saved, and
-- not among what the search says it created.
test_created_lost :
    (map (λ r. r.id) searched.1.rows ≡ 4 ∷ 5 ∷ [])
    × ((found_in searched.0).created ≡ [])
    × (searched ≡ (some (found_in searched.0), searched.1))
unfolding run_telegram_search_stage search_ed2k search_full search_telegram_first save_links
    handle_link attach_ed2k should_skip_full_after_fast summary_needs_full_retry
    save_telegram_result save_in_order attach_telegram_results insert_resource
    insert_resource_safely canonical_115_url resource_dedupe_key resource_already_exists
    quality_rule_skip_reason result_matches_subscription candidate_reject_reason
    decide_resource_candidate resource_allowed expand_episode_range all_tmdb_episode_keys
    owned_episode_keys missing_episode_keys season_numbers_from_text episodes_from_text
    pack_episode_keys_from_text episode_keys_from_text_for_subscription
    result_matches_missing_episodes split_colon
test_created_lost = (refl, refl, refl)

shown : subscription_should_hide texts.fullmatch tracked ≡ false
unfolding subscription_is_complete all_tmdb_episode_keys owned_episode_keys
shown = refl

misses : has_missing_episodes texts.fullmatch series ≡ true
unfolding missing_episode_keys all_tmdb_episode_keys owned_episode_keys
misses = refl

none_filled : (ids : List ℕ) (b : Bool) → ids ≡ [] → (filled ids && b) ≡ false
none_filled [] b h = refl
none_filled (i ∷ ids) b h = cc

abbrev enriched : Tracked → Option Tracked
enriched s = some s

search_and_attach_resources-with_fallback_example :
    search_and_attach_resources texts links quiet refuse history sources 9 enriched false true
      (some tracked)
      world
    ≡ finally_checked texts links quiet refuse history sources 9 true (
        with_fallback texts links quiet refuse history sources 9 tracked
          (found_in searched.0).created
          (deliver_all texts links quiet refuse history sources 9
            (found_in searched.0).created
            searched.1).1)
unfolding retry_stuck_pending_resources
search_and_attach_resources-with_fallback_example =
    search_and_attach_resources-with_fallback texts links quiet refuse history sources 9 enriched
      false true tracked tracked (found_in searched.0) world searched.1 refl refl shown misses
      test_created_lost.2
      (none_filled (found_in searched.0).created
        (deliver_all texts links quiet refuse history sources 9 (found_in searched.0).created
          searched.1).0
        test_created_lost.1)
