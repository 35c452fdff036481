-- ===== src/Saving/Insert.antt =====
-- resource/ops.py and resource/fallback.py: saving one result. A call changes the result itself, whose
-- link becomes the canonical one, and the list `existing_rows` that its caller holds. What raises, and
-- where, is a parameter.
use Prim.Native.String.{◌++◌}
use text.Mathlib.Text.{starts_with}
use togo.Common.{
  ℕ, ◌+◌, String, Bool, true, false, not, ◌&&◌, ◌||◌, Option, none, some, List, [], ◌∷◌,
  ◌++◌ as ◌+++◌, if◌then◌else◌, any, is_some, str_eq, subset, select, map, reverse, Dict, or_text,
  pair_equal,
}
use togo.Delivery.{Resource, pending}
use togo.Episodes.{is_tv, is_none}
use togo.Episodes.Packs.{episode_keys_from_text_for_subscription}
use togo.Library.{Tracked}
use togo.Matching.{Texts, Result, result_text}
use togo.Matching.Decision.{filled, resource_allowed}
use togo.Saving.{
  Links, Seen, is_effective, seen_of, of_subscription, canonical_115_url, resource_already_exists,
  episodes_of_title,
}
use togo.SourceStats.{Stat, record_match}
use togo.SourceStats.Key.{split_colon}

-- Where a call can raise: `canonical_115_url`, the tests before the INSERT, the INSERT, the count of
-- the source, and the test for a primary resource.
pub data Step : Type 0 where
  parsing reading inserting recording blocking : Step

-- The tables, and `existing_rows` of the caller.
pub record World : Type 0 where
  pub rows : List Resource
  pub next_id : ℕ
  pub stats : Dict Stat
  pub last_checked_at : Option ℕ
  pub seen : List Seen

pub data Outcome : Type 0 where
  returned : Option ℕ → Outcome
  raised : Outcome

-- The unique index of the table.
abbrev pub same_row : ℕ → String → Resource → Bool
same_row i url r = of_subscription i r && str_eq r.url url

abbrev pub new_row : ℕ → Tracked → Result → ℕ → Resource
new_row now s r i = record {
  id = i;
  subscription_id = s.base.id;
  title = r.title;
  url = r.url;
  status = pending;
  retry_count = 0;
  last_error = none;
  created_at = now;
  updated_at = some now;
}

abbrev pub inserted : ℕ → Tracked → Result → World → World
inserted now s r w = record w {
  rows = w.rows +++ new_row now s r w.next_id ∷ [];
  next_id = w.next_id + 1;
  seen = record { title = r.title; url = r.url; status = pending } ∷ w.seen;
}

-- `INSERT OR IGNORE`, and `if cursor.rowcount == 0`.
abbrev pub insert_or_ignore : ℕ → Tracked → Result → World → Outcome × Result × World
insert_or_ignore now s r w =
    if any (same_row s.base.id r.url) w.rows
    then (returned none, r, w)
    else (returned (some w.next_id), r, inserted now s r w)

abbrev pub source_counted : Option (String × String) → ℕ → World → World
source_counted none now w = w
source_counted (some (type_of_source, name)) now w = record w {
  stats =
      record_match (type_of_source ++ ":" ++ or_text name "订阅源") name type_of_source now w.stats;
}

abbrev pub saved : Outcome → Option ℕ
saved (returned item) = item
saved raised = none

module _ (t : Texts) (l : Links) (raises : Step → Result → Bool) where
  abbrev pub canonical : Result → Result
  canonical r = record r { url = canonical_115_url t l r.url }

  -- The tests of `_insert_resource` before the INSERT.
  abbrev pub is_refused : Tracked → Result → List Seen → Bool
  is_refused s r seen =
      not (t.is_valid_download_link r.url)
      || not (resource_allowed t (some s) r none)
      || is_some (resource_already_exists t l s r seen)

  abbrev pub insert_canonical : ℕ → Tracked → Result → World → Outcome × Result × World
  insert_canonical now s r w =
      if raises reading r
      then (raised, r, w)
      else if is_refused s r w.seen
      then (returned none, r, w)
      else if raises inserting r
      then (raised, r, w)
      else insert_or_ignore now s r w

  unfoldable pub insert_resource : ℕ → Tracked → Result → World → Outcome × Result × World
  insert_resource now s r w =
      if raises parsing r then (raised, r, w) else insert_canonical now s (canonical r) w

  abbrev pub record_source_match_with_conn : ℕ → Result → World → World
  record_source_match_with_conn now r w = source_counted (split_colon (l.strip r.source)) now w

  -- `if item: …`
  abbrev pub with_source : ℕ → Outcome × Result × World → Outcome × Result × World
  with_source now (raised, r, w) = (raised, r, w)
  with_source now (returned none, r, w) = (returned none, r, w)
  with_source now (returned (some item), r, w) =
      if raises recording r
      then (raised, r, w)
      else (returned (some item), r, record_source_match_with_conn now r w)

  abbrev pub insert_resource_automatic : ℕ → Tracked → Result → World → Outcome × Result × World
  insert_resource_automatic now s r w = with_source now (insert_resource now s r w)

  unfoldable pub insert_resource_safely : ℕ → Tracked → Result → World → Option ℕ × Result × World
  unfolding insert_resource
  insert_resource_safely now s r w =
      let answer = insert_resource_automatic now s r w in (saved answer.0, answer.1, answer.2)

  abbrev pub subscription_115_resources : ℕ → List Resource → List Seen
  subscription_115_resources i rows = reverse (
      map seen_of
        (select (λ r. of_subscription i r && is_effective r.status && l.matches_115 r.url) rows))

  abbrev pub is_fallback_source : Result → Bool
  is_fallback_source r =
      any (starts_with (t.casefold r.source))
        ("rss:" ∷ "torznab:" ∷ "magnet_web:" ∷ "site_plugin:" ∷ [])

  abbrev pub covers : Tracked → List (ℕ × ℕ) → Seen → Bool
  covers s episodes row =
      let existing = episodes_of_title t l s row.title in
      is_effective row.status && not (is_none existing) && subset episodes existing

  unfoldable pub fallback_blocked_by_primary_resource : Tracked → Result → List Seen → Bool
  fallback_blocked_by_primary_resource s r existing_115 =
      let episodes =
        episode_keys_from_text_for_subscription t.regexes t.fullmatch (some s.base)
          (result_text r []) in
      if not (is_fallback_source r)
      then false
      else if not (filled existing_115)
      then false
      else if not (l.is_115_share_link r.url)
      then false
      else if not (is_tv s.base.media_type)
      then true
      else if is_none episodes
      then false
      else any (covers s episodes) existing_115

  -- `_fallback_candidate_blocked`: a test that raises blocks.
  abbrev pub fallback_candidate_blocked : Tracked → Result → List Seen → Bool
  fallback_candidate_blocked s r existing_115 =
      raises blocking r || fallback_blocked_by_primary_resource s r existing_115
