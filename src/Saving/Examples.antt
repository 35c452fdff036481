-- ===== src/Saving/Examples.antt =====
-- Two results for a table with one row: tests and worked instances.
use togo.Delivery.{Resource, pending}
use togo.Common.{
  ℕ, inter, pair_equal, Option, String, ◌≤◌, ap, arith, ◌≡◌, refl, true, false, none, some, [], ◌∷◌,
}
use togo.Episodes.{
  is_none, all_tmdb_episode_keys, missing_episode_keys, owned_episode_keys, expand_episode_range,
}
use togo.Episodes.Texts.{episodes_from_text, season_numbers_from_text}
use togo.Episodes.Packs.{episode_keys_from_text_for_subscription, pack_episode_keys_from_text}
use togo.Library.{result_matches_missing_episodes}
use togo.Matching.{named_episodes, Result, result_matches_subscription, quality_rule_skip_reason}
use togo.Matching.Fixture.{series, texts, tracked, result}
use togo.Matching.Decision.{candidate_reject_reason, decide_resource_candidate, resource_allowed}
use togo.Saving.{
  existing_resource_rows, resource_already_exists, resource_dedupe_key, canonical_115_url,
}
use togo.Saving.Fixture.{links, quiet, refuse, old_row, world}
use togo.Saving.Insert.{new_row, canonical, insert_resource, insert_resource_safely}
use togo.Saving.Fallback.{attach_fallback_results_until_delivered}
use togo.Saving.Telegram.{missing_coverage, attach_telegram_results}
use togo.Saving.Covered.{selection_adds, attach_telegram_results-adds}
use togo.Saving.Realtime.{attach_results_for_subscription}
use togo.Saving.OneFeed.{fallbacks, rows_made, attach_results_for_subscription-rows}
use togo.Delivery.Service
use togo.Delivery.Service.{Environment, load_resource, deliver_resource}
use togo.Library.{Tracked}
use togo.Saving.Deliverable.{
  result_of, guarded_by_episodes, unguarded, deliver_resource-guarded_by_episodes,
}
use togo.Saving.Delivered.{
  keeps_word, deliver_with, attach_fallback_results_until_delivered-delivers,
}
use togo.Saving.Turns.{ends_within, attach_fallback_results_until_delivered-ends}
use togo.Saving.Rows.{
  made, has_unique_links, insert_resource_safely-rows, insert_resource_safely-has_unique_links,
}

test_saved : (insert_resource_safely texts links quiet 9 tracked result world).0 ≡ some 5
unfolding insert_resource_safely insert_resource canonical_115_url resource_allowed
    resource_already_exists resource_dedupe_key decide_resource_candidate candidate_reject_reason
    result_matches_subscription quality_rule_skip_reason result_matches_missing_episodes
    episode_keys_from_text_for_subscription episodes_from_text season_numbers_from_text
    pack_episode_keys_from_text missing_episode_keys owned_episode_keys all_tmdb_episode_keys
    expand_episode_range
test_saved = refl

attach_fallback_results_until_delivered-ends_example :
    ends_within 2 (
      attach_fallback_results_until_delivered texts links quiet refuse 9 tracked
        ((result ∷ []) ∷ (result ∷ []) ∷ [])
        world)
    ≡ true
attach_fallback_results_until_delivered-ends_example =
    attach_fallback_results_until_delivered-ends texts links quiet refuse 9 tracked
      ((result ∷ []) ∷ (result ∷ []) ∷ []) world

insert_resource_safely-rows_example :
    let a = insert_resource_safely texts links quiet 9 tracked result world in
    a.2.rows ≡ old_row ∷ made a.0 (new_row 9 tracked (canonical texts links quiet result))
insert_resource_safely-rows_example =
    insert_resource_safely-rows texts links quiet 9 tracked result world refl

insert_resource_safely-has_unique_links_example :
    let a = insert_resource_safely texts links quiet 9 tracked result world in
    has_unique_links texts links quiet tracked (existing_resource_rows 1 a.2.rows) ≡ true
insert_resource_safely-has_unique_links_example =
    insert_resource_safely-has_unique_links texts links quiet 9 tracked result world refl refl

-- No link is taken for one of 115 here, so each is its own canonical form.
canonical_is_same : (url : String) → canonical_115_url texts links url ≡ url
unfolding canonical_115_url
canonical_is_same url = ground arith

same_coverage :
    (r : Result)
    → missing_coverage texts links quiet tracked (canonical texts links quiet r)
      ≡ missing_coverage texts links quiet tracked r
same_coverage r =
    ap (λ url. missing_coverage texts links quiet tracked (record r { url = url }))
      (canonical_is_same r.url)

attach_telegram_results-adds_example :
    selection_adds texts links quiet tracked []
      (attach_telegram_results texts links quiet refuse 9 tracked (result ∷ result ∷ []) world)
    ≡ true
attach_telegram_results-adds_example =
    attach_telegram_results-adds texts links quiet tracked same_coverage refuse 9
      (result ∷ result ∷ []) world

attach_results_for_subscription-rows_example :
    let a =
      attach_results_for_subscription texts links quiet 9 tracked (result ∷ result ∷ []) world in
    (a.1.rows ≡ old_row ∷ rows_made texts links quiet 9 tracked a.0)
    × (fallbacks texts links quiet a ≤ 1)
attach_results_for_subscription-rows_example =
    attach_results_for_subscription-rows texts links quiet (λ r. refl) 9 tracked
      (result ∷ result ∷ []) world

abbrev env : Environment
env = record {
  tables = record { casefold = λ s. s; strip = λ s. s };
  dedupe_key = λ url. none;
  normalize_115 = λ url. some url;
  is_valid_download_link = λ url. true;
  is_115 = λ url. true;
  is_allowed = λ r. true;
  by_bot = false;
  forward_to_bot = λ n url. Service.timed_out;
  transfer = λ n url r. Service.answered true;
  offline_download = λ n url r. Service.timed_out;
}

attach_fallback_results_until_delivered-delivers_example :
    keeps_word (
      attach_fallback_results_until_delivered texts links quiet
        (deliver_with env [] 9)
        9
        tracked
        ((result ∷ []) ∷ [])
        world)
    ≡ true
attach_fallback_results_until_delivered-delivers_example =
    attach_fallback_results_until_delivered-delivers texts links quiet env [] 9 tracked
      ((result ∷ []) ∷ []) world

abbrev needed_row : Resource
needed_row = record old_row {
  id = 6;
  subscription_id = 1;
  title = "a E02";
  url = "magnet:?xt=1";
  status = pending;
}

abbrev deliveries : Service.World
deliveries = record { rows = needed_row ∷ []; tried = [] }

abbrev tracked_one : ℕ → Option Tracked
tracked_one i = some tracked

abbrev no_source : Resource → String
no_source r = "rss:one"

row_names_missing :
    is_none (
      inter
        (named_episodes texts tracked (result_of texts tracked_one no_source needed_row) [])
        (missing_episode_keys texts.fullmatch series))
    ≡ false
unfolding episode_keys_from_text_for_subscription episodes_from_text season_numbers_from_text
    pack_episode_keys_from_text missing_episode_keys owned_episode_keys all_tmdb_episode_keys
    expand_episode_range
row_names_missing = refl

deliver_resource-guarded_by_episodes_example :
    deliver_resource (guarded_by_episodes texts tracked_one no_source env) 9 6 deliveries
    ≡ deliver_resource (unguarded texts tracked_one no_source env) 9 6 deliveries
unfolding load_resource
deliver_resource-guarded_by_episodes_example =
    deliver_resource-guarded_by_episodes texts tracked_one no_source env tracked needed_row 9 6
      deliveries refl refl refl refl row_names_missing
