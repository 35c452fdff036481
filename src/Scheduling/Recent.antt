-- ===== src/Scheduling/Recent.antt =====
-- schedule.py: the subscriptions that a search of all takes. The time of the last check stands as a
-- number beside its text, `none` where the text is empty or no time.
use Prim.Native.String.{compare}
use text.Mathlib.Text.{is_lt}
use togo.Common.{
  ℕ, ◌-◌, String, Bool, true, false, not, ◌&&◌, ◌||◌, Option, none, some, List, [], ◌∷◌,
  if◌then◌else◌, ltb, leb, ◌==◌, length, seconds, str_eq, select, count_where,
}
use togo.Episodes.{Subscription, Media, movie, tv, is_none, missing_episode_keys}
use togo.Matching.Decision.{filled}

pub record Listed : Type 0 where
  pub base : Subscription
  pub last_checked_text : String
  pub last_checked : Option ℕ

abbrev pub complete_cooldown : ℕ
complete_cooldown = seconds 600

abbrev pub active_cooldown : ℕ
active_cooldown = seconds 120

-- `_seconds_since_last_checked`; a difference of natural numbers stops at 0, as `max(0.0, …)` does.
abbrev pub since_last_checked : ℕ → Option ℕ → Option ℕ
since_last_checked now none = none
since_last_checked now (some stamp) = some (now - stamp)

module _ (fullmatch : String → Option (ℕ × ℕ)) where
  abbrev pub caught_up : Media → Subscription → Bool
  caught_up movie s = s.in_library
  caught_up tv s =
      if not (not (s.tmdb_total_count == 0) || filled s.tmdb_seasons)
      then false
      else is_none (missing_episode_keys fullmatch s)

  abbrev pub skip_at_age : Subscription → Option ℕ → Bool
  skip_at_age s none = false
  skip_at_age s (some age) =
      if ltb age active_cooldown
      then true
      else if leb complete_cooldown age
      then false
      else caught_up s.media_type s

  unfoldable pub should_skip_recent_search_all : ℕ → Listed → Bool
  should_skip_recent_search_all now s = skip_at_age s.base (since_last_checked now s.last_checked)

  abbrev pub urgency_of : Media → Subscription → ℕ
  urgency_of movie s = if s.in_library then 0 else 10000
  urgency_of tv s = length (missing_episode_keys fullmatch s)

  abbrev pub urgency : Listed → ℕ
  urgency s = urgency_of s.base.media_type s.base

  -- The order of `_subscription_search_sort_key`.
  abbrev pub searched_before : Listed → Listed → Bool
  searched_before s r =
      ltb (urgency r) (urgency s)
      || urgency s == urgency r
        && (is_lt (compare s.last_checked_text r.last_checked_text)
            || str_eq s.last_checked_text r.last_checked_text && ltb s.base.id r.base.id)

  -- Python's `sorted` is stable: of two with equal keys the earlier one stays before the other.
  abbrev pub insert_listed : Listed → List Listed → List Listed
  insert_listed s [] = s ∷ []
  insert_listed s (r ∷ listed) =
      let rest = insert_listed s listed in if searched_before r s then r ∷ rest else s ∷ r ∷ listed

  unfoldable pub prioritize_subscriptions_for_search : List Listed → List Listed
  prioritize_subscriptions_for_search [] = []
  prioritize_subscriptions_for_search (s ∷ listed) =
      insert_listed s (prioritize_subscriptions_for_search listed)

  -- The kept ones, and how many were skipped.
  unfoldable pub filter_subscriptions_for_search_all : ℕ → List Listed → List Listed × ℕ
  unfolding prioritize_subscriptions_for_search should_skip_recent_search_all
  filter_subscriptions_for_search_all now listed =
      let skips = should_skip_recent_search_all now in
      (
        prioritize_subscriptions_for_search (select (λ s. not (skips s)) listed),
        count_where skips listed,
      )
