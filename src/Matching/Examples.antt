-- ===== src/Matching/Examples.antt =====
-- Results for a series of which one episode is there: tests and worked instances.
use togo.Common.{◌≡◌, refl, true, false, [], inter, pair_equal}
use togo.Episodes.{
  is_none, all_tmdb_episode_keys, missing_episode_keys, owned_episode_keys, expand_episode_range,
}
use togo.Episodes.Texts.{episodes_from_text, season_numbers_from_text}
use togo.Episodes.Packs.{episode_keys_from_text_for_subscription, pack_episode_keys_from_text}
use togo.Library.{result_matches_missing_episodes}
use togo.Matching.{is_ed2k, named_episodes, result_matches_subscription, quality_rule_skip_reason}
use togo.Matching.Fixture.{texts, tracked, result, series}
use togo.Matching.Decision.{accepted, candidate_reject_reason, decide_resource_candidate}
use togo.Matching.Guarded.{decide_resource_candidate-accepted}

no_ed2k : is_ed2k texts result ≡ false
no_ed2k = refl

known : is_none (all_tmdb_episode_keys series) ≡ false
unfolding all_tmdb_episode_keys
known = refl

named : is_none (named_episodes texts tracked result []) ≡ false
unfolding episode_keys_from_text_for_subscription episodes_from_text season_numbers_from_text
    expand_episode_range pack_episode_keys_from_text all_tmdb_episode_keys
named = refl

names_missing :
    is_none
      (inter (named_episodes texts tracked result []) (missing_episode_keys texts.fullmatch series))
    ≡ false
unfolding episode_keys_from_text_for_subscription episodes_from_text season_numbers_from_text
    pack_episode_keys_from_text missing_episode_keys owned_episode_keys all_tmdb_episode_keys
    expand_episode_range
names_missing = refl

test_accepted : accepted (decide_resource_candidate texts tracked result []) ≡ true
unfolding decide_resource_candidate candidate_reject_reason result_matches_subscription
    quality_rule_skip_reason result_matches_missing_episodes episode_keys_from_text_for_subscription
    episodes_from_text season_numbers_from_text pack_episode_keys_from_text missing_episode_keys
    owned_episode_keys all_tmdb_episode_keys expand_episode_range
test_accepted = refl

decide_resource_candidate-accepted_example :
    is_none (decide_resource_candidate texts tracked result []).missing_coverage ≡ false
decide_resource_candidate-accepted_example =
    decide_resource_candidate-accepted texts tracked result refl refl known named test_accepted
