-- ===== src/Matching/Decision.antt =====
-- match/candidate_decision.py, resource/guard.py and resource/matching.py: the decision on a result,
-- and whether it may be saved or delivered. The score and the sort key of a decision are left out.
use togo.Common.{
  String, Bool, true, false, not, ◌&&◌, ◌||◌, Option, none, some, List, [], ◌∷◌, if◌then◌else◌,
  is_some, or_else, ◌==◌, inter, pair_equal,
}
use togo.Episodes.{Key, Subscription, is_tv, is_none, missing_episode_keys}
use togo.Library.{Tracked, result_matches_missing_episodes}
use togo.Matching.{
  Texts, Result, Reason, named_episodes, episode_text, result_matches_subscription,
  result_skip_reason,
}

-- The reason of a decision: `none` stands for "matched" as the reason of an accepted one.
pub data Reject : Type 0 where
  invalid_download_link subscription_mismatch missing_episode_mismatch : Reject
  explained : Reason → Reject
  episodes_already_in_library episodes_not_needed movie_already_in_library : Reject

pub record Decision : Type 0 where
  pub reject : Option Reject
  pub episodes : List Key
  pub missing_episodes : List Key
  pub missing_coverage : List Key

abbrev pub accepted : Decision → Bool
accepted d = not (is_some d.reject)

-- `result_skip_reason(…) or default`
abbrev pub explained_or : Reject → Option Reason → Reject
explained_or default none = default
explained_or default (some reason) = explained reason

-- `SKIP_REASONS`
abbrev pub is_skip_reason : Reject → Bool
is_skip_reason episodes_already_in_library = true
is_skip_reason episodes_not_needed = true
is_skip_reason movie_already_in_library = true
is_skip_reason r = false

-- The truth of a list.
abbrev pub filled {ℓ} : {A : Type ℓ} → List A → Bool
filled [] = false
filled (x ∷ xs) = true

abbrev pub has_episode_scope : Subscription → Bool
has_episode_scope s =
    not (s.tmdb_total_count == 0)
    || filled s.tmdb_seasons
    || not (s.emby_count == 0)
    || filled s.emby_episode_keys
    || not (is_none (or_else s.emby_episodes []))
    || s.in_library

module _ (t : Texts) where
  open t use {fullmatch, marks_of, is_valid_download_link}

  abbrev pub needed : Tracked → Result → List String → List Key → Bool
  needed s r extra episodes =
      result_matches_missing_episodes fullmatch s.emby_snapshot_failed s.base episodes
        (marks_of s r (episode_text t r extra))

  unfoldable pub candidate_reject_reason :
      Tracked → Result → List Key → List Key → List String → Option Reject
  candidate_reject_reason s r episodes coverage extra =
      if not (is_valid_download_link r.url)
      then some invalid_download_link
      else if not (result_matches_subscription t s r extra)
      then some (explained_or subscription_mismatch (result_skip_reason t s r extra))
      else if needed s r extra (named_episodes t s r extra)
      then none
      else if is_tv s.base.media_type && not (is_none episodes)
      then (if is_none coverage then some episodes_already_in_library else some episodes_not_needed)
      else if not (is_tv s.base.media_type) && s.base.in_library
      then some movie_already_in_library
      else some (explained_or missing_episode_mismatch (result_skip_reason t s r extra))

  unfoldable pub decide_resource_candidate : Tracked → Result → List String → Decision
  unfolding candidate_reject_reason
  decide_resource_candidate s r extra =
      let episodes = named_episodes t s r extra in
      let missing = missing_episode_keys fullmatch s.base in
      let coverage = inter episodes missing in
      record {
        reject = candidate_reject_reason s r episodes coverage extra;
        episodes = episodes;
        missing_episodes = missing;
        missing_coverage = coverage;
      }

  -- `matching_results`: a result on which the decision raises is left out.
  abbrev pub matching_results : Tracked → List Result → List String → List Result
  matching_results s [] extra = []
  matching_results s (r ∷ results) extra =
      let rest = matching_results s results extra in
      if not (t.raises s r) && accepted (decide_resource_candidate s r extra)
      then r ∷ rest
      else rest

  -- `_episode_skip_reason` of the guard.
  abbrev pub guard_skip_reason : Tracked → Result → Option Reject
  guard_skip_reason s r =
      let episodes = named_episodes t s r [] in
      let missing = missing_episode_keys fullmatch s.base in
      if not (is_tv s.base.media_type)
      then (if s.base.in_library then some movie_already_in_library else none)
      else if is_none episodes
      then none
      else if not (is_none missing) && is_none (inter episodes missing)
      then some episodes_already_in_library
      else if is_none missing && has_episode_scope s.base
      then some episodes_not_needed
      else none

  -- What is said of a rejected result, with the reasons to reject for, if they are limited.
  abbrev pub allowed_after : Tracked → Result → Option (Reject → Bool) → Reject → Bool
  allowed_after s r none reason = false
  allowed_after s r (some rejects) reason =
      if rejects reason then false else not (rejects (or_else (guard_skip_reason s r) reason))

  abbrev pub allowed_by : Tracked → Result → Option (Reject → Bool) → Option Reject → Bool
  allowed_by s r rejects none = true
  allowed_by s r rejects (some reason) = allowed_after s r rejects reason

  -- `resource_allowed_for_subscription`
  unfoldable pub resource_allowed : Option Tracked → Result → Option (Reject → Bool) → Bool
  resource_allowed none r rejects = true
  resource_allowed (some s) r rejects =
      if t.raises s r
      then false
      else allowed_by s r rejects (decide_resource_candidate s r []).reject
