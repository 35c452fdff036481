-- ===== src/Search/Ed2k.antt =====
-- search/ed2k.py: every ed2k link that a search found for a series is saved, unless its file name
-- names only episodes that are not needed. A raise ends the call, and its transaction is rolled back;
-- `none` stands for that. The logs and their counts are left out.
use text.Mathlib.Text.{starts_with}
use togo.Common.{
  ℕ, String, Bool, false, not, ◌&&◌, ◌||◌, Option, none, some, List, [], ◌∷◌, if◌then◌else◌, select,
  any, union, inter, diff, str_eq, pair_equal,
}
use togo.Episodes.{Key, is_tv, is_none, missing_episode_keys}
use togo.Library.{Tracked}
use togo.Matching.{Texts, Result}
use togo.Matching.Decision.{resource_allowed}
use togo.Saving.{
  Links, LinkKey, Seen, is_effective, same_key, resource_dedupe_key, episodes_of_title,
  existing_resource_rows,
}
use togo.Saving.Insert.{
  Step, reading, inserting, World, Outcome, returned, raised, insert_or_ignore,
}
use togo.Saving.Telegram.{
  Selection, with_created, with_duplicate, with_failed, then_put, ended, checked_at,
}

-- What becomes of one link.
pub data Handled : Type 0 where
  passed_over refused known : Handled
  saved_as_id : ℕ → Handled

abbrev pub inserted_as : Outcome × Result × World → Option (Handled × World)
inserted_as (raised, r, w) = none
inserted_as (returned none, r, w) = some (refused, w)
inserted_as (returned (some item), r, w) = some (saved_as_id item, w)

abbrev pub has_same_key : Option LinkKey → Option LinkKey → Bool
has_same_key (some k) (some j) = same_key k j
has_same_key k j = false

module _ (t : Texts) (l : Links) (raises : Step → Result → Bool) where
  abbrev pub resource_url_exists : String → List Seen → Bool
  resource_url_exists url rows =
      any
        (λ row.
          is_effective row.status
          && has_same_key (resource_dedupe_key t l url) (resource_dedupe_key t l row.url))
        rows

  -- `_build_covered_episodes`
  abbrev pub build_covered_episodes : Tracked → List Seen → List Key
  build_covered_episodes s [] = []
  build_covered_episodes s (row ∷ rows) =
      let rest = build_covered_episodes s rows in
      if is_effective row.status && not (str_eq row.title "")
      then union (episodes_of_title t l s row.title) rest
      else rest

  abbrev pub needed_episodes : Tracked → List Seen → List Key
  needed_episodes s rows =
      diff (missing_episode_keys t.fullmatch s.base) (build_covered_episodes s rows)

  -- The test of the file name.
  abbrev pub is_not_needed : Tracked → List Key → Result → Bool
  is_not_needed s needed r =
      let episodes = episodes_of_title t l s r.title in
      is_none needed || not (is_none episodes) && is_none (inter episodes needed)

  unfoldable pub handle_link : ℕ → Tracked → List Key → Result → World → Option (Handled × World)
  handle_link now s needed r w =
      if raises reading r
      then none
      else if is_not_needed s needed r
      then some (passed_over, w)
      else if not (t.is_valid_download_link r.url)
      then some (passed_over, w)
      else if not (resource_allowed t (some s) r none)
      then some (refused, w)
      else if resource_url_exists r.url w.seen
      then some (known, w)
      else if raises inserting r
      then none
      else inserted_as (insert_or_ignore now s r w)

  abbrev pub after_link :
      Result → (World → Option Selection) → Option (Handled × World) → Option Selection
  after_link r rest none = none
  after_link r rest (some (passed_over, w)) = rest w
  after_link r rest (some (refused, w)) = then_put with_failed (rest w)
  after_link r rest (some (known, w)) = then_put (with_duplicate r) (rest w)
  after_link r rest (some (saved_as_id item, w)) = then_put (with_created item r) (rest w)

  -- The loop over the links.
  unfoldable pub save_links : ℕ → Tracked → List Key → List Result → World → Option Selection
  save_links now s needed [] w = ended w
  save_links now s needed (r ∷ results) w =
      after_link r (save_links now s needed results) (handle_link now s needed r w)

  abbrev pub only_ed2k : List Result → List Result
  only_ed2k results =
      select (λ r. starts_with (t.casefold r.url) "ed2k://" && not (str_eq r.title "")) results

  abbrev pub attach_found : ℕ → Tracked → List Result → World → Option Selection
  attach_found now s [] w = ended w
  attach_found now s (r ∷ found) w =
      let rows = existing_resource_rows s.base.id w.rows in
      then_put (checked_at t l raises now)
        (save_links now s (needed_episodes s rows) (r ∷ found) (record w { seen = rows }))

  -- `search_and_attach_ed2k`, with the results of the search.
  unfoldable pub attach_ed2k : ℕ → Tracked → List Result → World → Option Selection
  unfolding save_links
  attach_ed2k now s results w =
      if is_tv s.base.media_type then attach_found now s (only_ed2k results) w else ended w
