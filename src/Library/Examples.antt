-- ===== src/Library/Examples.antt =====
-- A series in the library: tests and worked instances.
use togo.Common.{
  ℕ, ◌≡◌, refl, String, true, false, Option, none, some, List, [], ◌∷◌, any, has, pair_equal,
}
use togo.Episodes.{
  Key, Subscription, tv, is_none, all_tmdb_episode_keys, missing_episode_keys, owned_episode_keys,
}
use togo.Library.{Tracked, Marks, subscription_is_complete, result_matches_missing_episodes}
use togo.Library.Completion.{subscription_is_complete-missing}
use togo.Library.Needed.{result_matches_missing_episodes-any}

abbrev fullmatch : String → Option (ℕ × ℕ)
fullmatch s = none

abbrev series : List Key → Subscription
series owned = record {
  id = 1;
  media_type = tv;
  tmdb_seasons = record { season_number = some 1; episode_count = some 2 } ∷ [];
  tmdb_total_count = 2;
  emby_episodes = some owned;
  emby_episode_keys = [];
  emby_count = 0;
  in_library = true;
}

abbrev tracked : Tracked
tracked = record {
  base = series [];
  title = "title";
  tmdb_id = "7";
  status = "active";
  completed_at = none;
  emby_snapshot_failed = false;
}

abbrev no_marks : Marks
no_marks = record { primary_115 = false; site_plugin_with_id = false }

known : (owned : List Key) → is_none (all_tmdb_episode_keys (series owned)) ≡ false
unfolding all_tmdb_episode_keys
known owned = refl

test_complete : subscription_is_complete fullmatch (series ((1, 2) ∷ (1, 1) ∷ [])) none none ≡ true
unfolding subscription_is_complete owned_episode_keys all_tmdb_episode_keys
test_complete = refl

subscription_is_complete-missing_example :
    subscription_is_complete fullmatch (series ((1, 1) ∷ [])) none none
    ≡ is_none (missing_episode_keys fullmatch (series ((1, 1) ∷ [])))
subscription_is_complete-missing_example =
    subscription_is_complete-missing fullmatch (series ((1, 1) ∷ [])) refl (known ((1, 1) ∷ []))

result_matches_missing_episodes-any_example :
    result_matches_missing_episodes fullmatch false
      (series ((1, 1) ∷ []))
      ((1, 1) ∷ (1, 2) ∷ [])
      no_marks
    ≡ any
        (λ k. has k (missing_episode_keys fullmatch (series ((1, 1) ∷ []))))
        ((1, 1) ∷ (1, 2) ∷ [])
result_matches_missing_episodes-any_example =
    result_matches_missing_episodes-any fullmatch (series ((1, 1) ∷ [])) ((1, 1) ∷ (1, 2) ∷ [])
      no_marks refl (known ((1, 1) ∷ [])) refl
