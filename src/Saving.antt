-- ===== src/Saving.antt =====
-- app/services/subscription/resource: what counts as the same resource, in resources.py and
-- duplicate.py. Parameters: what urllib and regular expressions make of a link, the key of a title,
-- and whether difflib finds two keys of titles alike by 0.94 or more. The memo of the index is left
-- out: the index is built from the rows at each call.
pub mod Insert
pub mod Fallback
pub mod Turns
pub mod Rows
pub mod Telegram
pub mod Covered
pub mod Realtime
pub mod OneFeed
pub mod Deliverable
pub mod Delivered
pub mod Fixture
mod Examples
use Prim.Native.String.{◌++◌}
use togo.Common.{
  ℕ, String, Bool, true, false, not, ◌&&◌, ◌||◌, Option, none, some, List, [], ◌∷◌, if◌then◌else◌,
  any, coalesce, is_some, str_eq, subset, ◌==◌, select, map, reverse, pair_equal,
}
use togo.Delivery.{Resource, Status, pending, delivered}
use togo.Episodes.{Key, is_none}
use togo.Episodes.Packs.{episode_keys_from_text_for_subscription}
use togo.Library.{Tracked}
use togo.Matching.{Texts, Result, named_episodes}

pub record Links : Type 0 where
  pub strip : String → String
  pub normalize_115_share_link : String → String
  pub matches_115 : String → Bool
  pub parse_115_share_link : String → String × String
  pub magnet_hash : String → Option String
  pub is_115_share_link : String → Bool
  pub title_key : String → String
  pub alike : String → String → Bool
  -- The order of `fallback_candidate_sort_key`.
  pub sorts_before : Tracked → Result → Result → Bool

-- `resource_dedupe_key`
pub data LinkKey : Type 0 where
  magnet share_115 plain_url : String → LinkKey

-- A row of `existing_resource_rows`.
pub record Seen : Type 0 where
  pub title : String
  pub url : String
  pub status : Status

pub data Duplicate : Type 0 where
  same_link : LinkKey → Duplicate
  covered_episodes similar_title : Duplicate

-- `_build_resource_row_index`
pub record RowIndex : Type 0 where
  pub by_key : List LinkKey
  pub episode_sets : List (List Key)
  pub title_entries : List (String × List Key)

abbrev pub same_key : LinkKey → LinkKey → Bool
same_key (magnet a) (magnet b) = str_eq a b
same_key (share_115 a) (share_115 b) = str_eq a b
same_key (plain_url a) (plain_url b) = str_eq a b
same_key k j = false

abbrev pub is_effective : Status → Bool
is_effective pending = true
is_effective delivered = true
is_effective s = false

abbrev pub seen_of : Resource → Seen
seen_of r = record { title = r.title; url = r.url; status = r.status }

abbrev pub of_subscription : ℕ → Resource → Bool
of_subscription i r = r.subscription_id == i

-- `existing_resource_rows`: the newest row first.
abbrev pub existing_resource_rows : ℕ → List Resource → List Seen
existing_resource_rows i rows = reverse (map seen_of (select (of_subscription i) rows))

abbrev pub with_code : String × String → String → String
with_code (share, receive) url =
    if str_eq share ""
    then url
    else if str_eq receive ""
    then "https://115.com/s/" ++ share
    else "https://115.com/s/" ++ share ++ "?password=" ++ receive

abbrev pub has_key : LinkKey → List LinkKey → Bool
has_key k keys = any (same_key k) keys

-- `if key and key not in by_key`
abbrev pub with_key : Option LinkKey → List LinkKey → List LinkKey
with_key none keys = keys
with_key (some k) keys = k ∷ keys

abbrev pub same_episodes : List Key → List Key → Bool
same_episodes s t = subset s t && subset t s

module _ (t : Texts) (l : Links) where
  open l use {
    strip, normalize_115_share_link, matches_115, parse_115_share_link, magnet_hash, title_key,
    alike,
  }

  abbrev pub is_115 : String → Bool
  is_115 value = not (str_eq value "") && matches_115 value

  unfoldable pub canonical_115_url : String → String
  canonical_115_url url =
      let value = normalize_115_share_link url in
      if is_115 value then with_code (parse_115_share_link value) url else url

  abbrev pub link_key : String → Option String → LinkKey
  link_key value (some hash) = magnet hash
  link_key value none =
      let clean = normalize_115_share_link value in
      if is_115 clean then share_115 (canonical_115_url clean) else plain_url value

  unfoldable pub resource_dedupe_key : String → Option LinkKey
  resource_dedupe_key url =
      let value = strip url in
      if str_eq value "" then none else some (link_key value (magnet_hash value))

  abbrev pub episodes_of_title : Tracked → String → List Key
  episodes_of_title s title =
      episode_keys_from_text_for_subscription t.regexes t.fullmatch (some s.base) title

  abbrev pub with_row : Tracked → Seen → RowIndex → RowIndex
  with_row s row index =
      let episodes = episodes_of_title s row.title in
      let key = title_key row.title in
      record {
        by_key = with_key (resource_dedupe_key row.url) index.by_key;
        episode_sets =
            if is_none episodes then index.episode_sets else episodes ∷ index.episode_sets;
        title_entries =
            if str_eq key "" then index.title_entries else (key, episodes) ∷ index.title_entries;
      }

  -- The loop over the rows.
  abbrev pub build_resource_row_index : Tracked → List Seen → RowIndex
  build_resource_row_index s [] = record { by_key = []; episode_sets = []; title_entries = [] }
  build_resource_row_index s (row ∷ rows) =
      let rest = build_resource_row_index s rows in
      if is_effective row.status then with_row s row rest else rest

  abbrev pub similar_title_against_key : String → List Key → String × List Key → Bool
  similar_title_against_key key episodes (existing_key, existing) =
      not (str_eq key "")
      && not (str_eq existing_key "")
      && alike key existing_key
      && (is_none episodes && is_none existing || same_episodes episodes existing)

  abbrev pub key_reason : Option LinkKey → List LinkKey → Option Duplicate
  key_reason none keys = none
  key_reason (some k) keys = if has_key k keys then some (same_link k) else none

  abbrev pub episodes_reason : List Key → List (List Key) → Option Duplicate
  episodes_reason episodes sets =
      if not (is_none episodes) && any (subset episodes) sets then some covered_episodes else none

  abbrev pub title_reason : String → List Key → List (String × List Key) → Option Duplicate
  title_reason key episodes entries =
      if not (str_eq key "") && any (similar_title_against_key key episodes) entries
      then some similar_title
      else none

  unfoldable pub resource_already_exists : Tracked → Result → List Seen → Option Duplicate
  resource_already_exists s r rows =
      let index = build_resource_row_index s rows in
      let episodes = named_episodes t s r [] in
      coalesce (key_reason (resource_dedupe_key r.url) index.by_key) (
        coalesce (episodes_reason episodes index.episode_sets)
          (title_reason (title_key r.title) episodes index.title_entries))
