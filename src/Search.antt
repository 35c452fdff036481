-- ===== src/Search.antt =====
-- app/services/subscription/search: one search of a subscription, on Telegram first and on the other
-- sources where that is needed. This file has the decisions of flow.py and service.py over the summary
-- of a search and over the missing episodes.
pub mod Action
pub mod Ed2k
pub mod Needed
pub mod Unique
pub mod Stages
pub mod Attempt
pub mod Reached
pub mod Waves
pub mod Tally
pub mod Once
mod Examples
use togo.Common.{
  ℕ, ◌≤◌, String, Bool, true, false, not, ◌&&◌, ◌||◌, Option, none, some, if◌then◌else◌, leb, ltb,
  ◌==◌,
}
use togo.Episodes.{Subscription, is_tv, is_none, all_tmdb_episode_keys, missing_episode_keys}
use togo.Library.{Tracked}
use togo.Saving.Telegram.{Summary}

module _ (fullmatch : String → Option (ℕ × ℕ)) where
  abbrev pub has_missing_episodes : Subscription → Bool
  has_missing_episodes s = is_tv s.media_type && not (is_none (missing_episode_keys fullmatch s))

  abbrev pub pure_duplicates : Summary → Bool
  pure_duplicates a =
      ltb 0 a.raw_matched && leb a.raw_matched a.duplicates
      || ltb 0 a.available_matched && leb a.available_matched a.duplicates && a.created_count == 0

  -- `_telegram_should_skip_full_after_fast`
  unfoldable pub should_skip_full_after_fast : Summary → Subscription → Bool
  should_skip_full_after_fast a s =
      if ltb 0 a.created_count
      then true
      else if ltb 0 a.save_failed
      then false
      else if not (pure_duplicates a)
      then false
      else not (a.from_index && has_missing_episodes s)

  -- `_telegram_summary_needs_full_retry`
  unfoldable pub summary_needs_full_retry : Summary → Subscription → Bool
  unfolding should_skip_full_after_fast
  summary_needs_full_retry a s =
      if a.from_index && a.created_count == 0
      then not (should_skip_full_after_fast a s)
      else not (a.save_failed == 0)

  -- `_telegram_should_skip_fallback`
  unfoldable pub should_skip_fallback : Summary → Subscription → Bool
  should_skip_fallback a s =
      if a.available_matched == 0
      then false
      else if ltb 0 a.created_count
      then true
      else if ltb 0 a.save_failed
      then false
      else if not (a.duplicates == a.available_matched)
      then false
      else not (has_missing_episodes s)

  -- `subscription_needs_resource_search`
  unfoldable pub needs_resource_search : Tracked → Bool
  needs_resource_search s =
      if s.emby_snapshot_failed
      then true
      else if not (is_tv s.base.media_type)
      then not s.base.in_library
      else if is_none (all_tmdb_episode_keys s.base)
      then true
      else not (is_none (missing_episode_keys fullmatch s.base))
