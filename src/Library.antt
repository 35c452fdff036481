-- ===== src/Library.antt =====
-- app/services/subscription/library/match.py and state.py: what the media library says of a
-- subscription. Parameters: `re.fullmatch` on a key's text, and `compact`, the folding of titles by
-- compact_match_text, a chain of regular expressions. An empty text stands for a missing one.
pub mod Completion
pub mod Needed
mod Examples
use text.Mathlib.Text.{find?}
use togo.Common.{
  ℕ, zero, suc, ◌+◌, String, Bool, true, false, not, ◌&&◌, ◌||◌, Option, none, some, List, [], ◌∷◌,
  if◌then◌else◌, ◌==◌, ltb, leb, any, all, is_some, or_else, length, chars, select, first?, str_eq,
  subset, inter, add, pair_equal, Dict, get,
}
use togo.Episodes.{
  Key, Media, movie, tv, is_tv, Subscription, RawSeason, Field, episode_key_from_item, is_none,
  in_first_season, all_tmdb_episode_keys, owned_episode_keys, missing_episode_keys,
  tmdb_seasons_from_detail, add_some,
}

-- An item of the snapshot; `series_id` is `SeriesId or ParentId`, the names are those that are set.
pub record Item : Type 0 where
  pub item_id : String
  pub item_tmdb_id : String
  pub names : List String
  pub series_id : String
  pub parent_index : Field
  pub index : Field

pub record Snapshot : Type 0 where
  pub movies : List Item
  pub series : List Item
  pub episodes : List Item

-- The columns of a subscription that are read here.
pub record Tracked : Type 0 where
  pub base : Subscription
  pub title : String
  pub tmdb_id : String
  pub status : String
  pub completed_at : Option ℕ
  pub emby_snapshot_failed : Bool

-- What `_library_state` returns.
pub record State : Type 0 where
  pub now_in_library : Bool
  pub now_emby_count : ℕ
  pub total_count : ℕ
  pub seasons : List RawSeason
  pub owned_episodes : List Key
  pub new_status : String
  pub new_completed_at : Option ℕ
  pub newly_completed : Bool

-- The numbers of a TMDB answer.
pub record Detail : Type 0 where
  pub number_of_episodes : ℕ
  pub detail_seasons : List RawSeason

-- `a or b` on a number.
abbrev pub or_count : ℕ → ℕ → ℕ
or_count m n = if m == 0 then n else m

module _ (compact : String → String) where
  abbrev pub name_matches : String → String → Bool
  name_matches title name =
      str_eq (compact name) title || (leb 4 (chars title) && is_some (find? (compact name) title))

  abbrev pub emby_item_matches : Tracked → Item → Bool
  emby_item_matches s item =
      if not (str_eq s.tmdb_id "")
        && not (str_eq item.item_tmdb_id "")
        && str_eq s.tmdb_id item.item_tmdb_id
      then true
      else not (str_eq (compact s.title) "") && any (name_matches (compact s.title)) item.names

  abbrev pub episode_matches : Tracked → String → Item → Bool
  episode_matches s series_id item =
      (not (str_eq series_id "") && str_eq item.series_id series_id) || emby_item_matches s item

  abbrev pub owned_loop : Tracked → String → List Item → List Key
  owned_loop s series_id [] = []
  owned_loop s series_id (item ∷ items) =
      let rest = owned_loop s series_id items in
      if episode_matches s series_id item
      then add_some (episode_key_from_item item.parent_index item.index) rest
      else rest

  abbrev pub or_items : List Item → List Item → List Item
  or_items [] items = items
  or_items (i ∷ scoped) items = i ∷ scoped

  unfoldable pub episodes_for_subscription : Tracked → List Item → String → List Key
  episodes_for_subscription s items series_id =
      if str_eq series_id ""
      then []
      else owned_loop s series_id
          (or_items (select (λ i. str_eq i.series_id series_id) items) items)

  -- `_series_episode_count_by_name`: the first name that fits.
  abbrev pub count_by_name : String → Dict ℕ → ℕ
  count_by_name title [] = 0
  count_by_name title ((name, n) ∷ counts) =
      let rest = count_by_name title counts in
      if str_eq name title
        || (leb 4 (chars title) && is_some (find? name title))
        || (leb 4 (chars name) && is_some (find? title name))
      then n
      else rest

  abbrev pub count_of_names : List String → Dict ℕ → ℕ
  count_of_names [] counts = 0
  count_of_names (name ∷ names) counts =
      let rest = count_of_names names counts in
      let n = or_else (get (compact name) counts) 0 in if n == 0 then rest else n

  abbrev pub series_episode_count : Tracked → Option Item → String → List Key → Dict ℕ → Dict ℕ → ℕ
  series_episode_count s none series_id owned by_id by_name =
      or_count (or_count (length owned) (or_else (get series_id by_id) 0))
        (count_by_name (compact s.title) by_name)
  series_episode_count s (some item) series_id owned by_id by_name =
      or_count (or_count (length owned) (or_else (get series_id by_id) 0))
        (count_of_names item.names by_name)

module _ (fullmatch : String → Option (ℕ × ℕ)) where
  abbrev pub tv_complete : Subscription → List Key → List Key → ℕ → Bool
  tv_complete s expected owned count =
      if is_none expected
      then not (s.tmdb_total_count == 0) && leb s.tmdb_total_count count
      else if not (is_none owned)
      then subset expected owned
      else all in_first_season expected && leb (length expected) count

  -- `_subscription_is_complete`, with the library's answer and the count, given or the row's own.
  unfoldable pub subscription_is_complete : Subscription → Option Bool → Option ℕ → Bool
  subscription_is_complete s in_library count =
      if not (is_tv s.media_type)
      then or_else in_library s.in_library
      else tv_complete s (all_tmdb_episode_keys s) (owned_episode_keys fullmatch s)
          (or_else count s.emby_count)

  abbrev pub subscription_should_hide : Tracked → Bool
  subscription_should_hide s =
      str_eq s.status "completed" || subscription_is_complete s.base none none

  -- `_completion_state`: the status, the time of completion, and whether the status is that of a
  -- completed subscription.
  unfoldable pub completion_state :
      ℕ → Tracked → ℕ → List RawSeason → List Key → ℕ → Bool → String × Option ℕ × Bool
  completion_state now s total seasons owned count in_library =
      let enriched = record (s.base) {
        tmdb_total_count = total;
        tmdb_seasons = seasons;
        emby_episodes = some owned;
        emby_count = count;
        in_library = in_library;
      } in
      let completed = subscription_is_complete enriched (some in_library) (some count) in
      let status = if completed || str_eq s.status "completed" then "completed" else s.status in
      let completed_at =
        if str_eq status "completed" then some (or_else s.completed_at now) else none in
      (status, completed_at, str_eq status "completed")

abbrev fresh_seasons : List (ℕ × ℕ) → List RawSeason → List RawSeason
fresh_seasons [] seasons = seasons
fresh_seasons (s ∷ fresh) seasons = raw (s ∷ fresh)
  where
    raw : List (ℕ × ℕ) → List RawSeason
    raw [] = []
    raw ((n, c) ∷ ss) = record { season_number = some n; episode_count = some c } ∷ raw ss

-- `_tmdb_metadata`: a fresh answer replaces what is stored where it says something.
abbrev pub tmdb_metadata : Subscription → Option Detail → ℕ × List RawSeason
tmdb_metadata s none = (s.tmdb_total_count, s.tmdb_seasons)
tmdb_metadata s (some d) = (
  or_count d.number_of_episodes s.tmdb_total_count,
  fresh_seasons (tmdb_seasons_from_detail d.detail_seasons) s.tmdb_seasons,
)

-- `mark_completed_subscription`: the answer and the row.
unfoldable pub mark_completed_subscription : ℕ → Tracked → Bool × Tracked
mark_completed_subscription now s =
    if str_eq s.status "completed"
    then (false, s)
    else (true, record s { status = "completed"; completed_at = some (or_else s.completed_at now) })

-- What is asked of a result beside its episodes.
pub record Marks : Type 0 where
  pub primary_115 : Bool
  pub site_plugin_with_id : Bool

module _ (compact : String → String) (fullmatch : String → Option (ℕ × ℕ)) where
  abbrev pub item_id_of : Option Item → String
  item_id_of none = ""
  item_id_of (some item) = item.item_id

  abbrev pub state_of : ℕ → Tracked → ℕ × List RawSeason → List Key → ℕ → Bool → State
  state_of now s (total, seasons) owned count in_library =
      let done = completion_state fullmatch now s total seasons owned count in_library in
      record {
        now_in_library = in_library;
        now_emby_count = count;
        total_count = total;
        seasons = seasons;
        owned_episodes = owned;
        new_status = done.0;
        new_completed_at = done.1;
        newly_completed = done.2 && not (str_eq s.status "completed");
      }

  -- `_library_state`, with the counts of the episodes by the id and by the name of a series.
  unfoldable pub library_state : ℕ → Tracked → Snapshot → Dict ℕ → Dict ℕ → Option Detail → State
  library_state now s snapshot by_id by_name detail =
      let meta = tmdb_metadata s.base detail in
      let film = is_some (first? (emby_item_matches compact s) snapshot.movies) in
      let match = first? (emby_item_matches compact s) snapshot.series in
      let owned = episodes_for_subscription compact s snapshot.episodes (item_id_of match) in
      let count = series_episode_count compact s match (item_id_of match) owned by_id by_name in
      if is_tv s.base.media_type
      then state_of now s meta owned count (is_some match || not (count == 0))
      else state_of now s meta [] (if film then 1 else 0) film

module _ (fullmatch : String → Option (ℕ × ℕ)) where
  -- `result_matches_missing_episodes`, with the episodes that the result's text names.
  unfoldable pub result_matches_missing_episodes : Bool → Subscription → List Key → Marks → Bool
  result_matches_missing_episodes snapshot_failed s episodes marks =
      let owned = owned_episode_keys fullmatch s in
      let missing = missing_episode_keys fullmatch s in
      if snapshot_failed
      then true
      else if not (is_tv s.media_type)
      then not s.in_library
      else if not (is_none episodes) && not (is_none owned) && subset episodes owned
      then false
      else if is_none (all_tmdb_episode_keys s)
      then not (not (is_none episodes) && not (is_none owned))
      else if is_none missing
      then false
      else if not (is_none episodes)
      then not (is_none (inter episodes missing))
      else marks.primary_115 || marks.site_plugin_with_id
