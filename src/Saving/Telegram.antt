-- ===== src/Saving/Telegram.antt =====
-- search/selection.py and selection_telegram.py: the results of a search on Telegram are saved, best
-- first, and a result is passed over when earlier ones cover all that it adds. A test for a duplicate
-- that raises ends the call, and its transaction is rolled back; `none` stands for that. The logs
-- and the metrics are left out.
use text.Mathlib.Text.{starts_with}
use togo.Common.{
  ℕ, ◌+◌, Bool, length, any, false, not, ◌&&◌, ◌||◌, str_eq, Option, none, some, List, [], ◌∷◌,
  if◌then◌else◌, select, union, subset, is_some, pair_equal,
}
use togo.Delivery.{Resource}
use togo.Episodes.{Key, is_none}
use togo.Library.{Tracked}
use togo.Matching.{Texts, Result}
use togo.Matching.Decision.{decide_resource_candidate, matching_results}
use togo.Saving.{Links, existing_resource_rows, resource_already_exists}
use togo.Saving.Insert.{Step, reading, World, insert_resource_safely}
use togo.Saving.Fallback.{Candidate, Answer, numbered, fallback_result_candidates}

-- The summary that a search on Telegram answers.
pub record Summary : Type 0 where
  pub raw_matched : ℕ
  pub available_matched : ℕ
  pub created_count : ℕ
  pub duplicates : ℕ
  pub save_failed : ℕ
  pub from_index : Bool

-- What `_save_telegram_result` answers.
pub data Saved : Type 0 where
  created : ℕ → Saved
  duplicate not_saved : Saved

-- The lists `created` and `matched` in their order, and the tables.
pub record Selection : Type 0 where
  pub created_ids : List ℕ
  pub created_results : List Result
  pub matched : List Result
  pub duplicate_count : ℕ
  pub save_failed_count : ℕ
  pub world : World

abbrev pub with_created : ℕ → Result → Selection → Selection
with_created item r a = record a {
  created_ids = item ∷ a.created_ids;
  created_results = r ∷ a.created_results;
  matched = r ∷ a.matched;
}

abbrev pub with_duplicate : Result → Selection → Selection
with_duplicate r a = record a { matched = r ∷ a.matched; duplicate_count = a.duplicate_count + 1 }

abbrev pub with_failed : Selection → Selection
with_failed a = record a { save_failed_count = a.save_failed_count + 1 }

abbrev pub then_put : (Selection → Selection) → Option Selection → Option Selection
then_put f none = none
then_put f (some a) = some (f a)

abbrev pub ended : World → Option Selection
ended w = some (record {
  created_ids = [];
  created_results = [];
  matched = [];
  duplicate_count = 0;
  save_failed_count = 0;
  world = w;
})

abbrev pub saved_as : Option ℕ × Result × World → Saved × Result × World
saved_as (none, r, w) = (not_saved, r, w)
saved_as (some item, r, w) = (created item, r, w)

module _ (t : Texts) (l : Links) (raises : Step → Result → Bool) where
  unfoldable pub save_telegram_result :
      ℕ → Tracked → Result → World → Option (Saved × Result × World)
  save_telegram_result now s r w =
      if raises reading r
      then none
      else if is_some (resource_already_exists t l s r w.seen)
      then some (duplicate, r, w)
      else some (saved_as (insert_resource_safely t l raises now s r w))

  -- `_missing_coverage_for_result`
  abbrev pub missing_coverage : Tracked → Result → List Key
  missing_coverage s r =
      if t.raises s r then [] else (decide_resource_candidate t s r []).missing_coverage

  -- `_result_missing_already_covered`
  abbrev pub missing_already_covered : Tracked → Result → List Key → Bool → Bool
  missing_already_covered s r covered bare_pack_saved =
      let coverage = missing_coverage s r in
      if not (is_none coverage) then subset coverage covered else bare_pack_saved

  -- What follows the saving of one result; the rest of the loop takes the covered episodes.
  abbrev pub after_result :
      Tracked
      → List Key
      → (List Key → World → Option Selection)
      → Option (Saved × Result × World)
      → Option Selection
  after_result s covered rest none = none
  after_result s covered rest (some (created item, r, w)) =
      let covered_now = union covered (missing_coverage s r) in
      then_put (with_created item r) (if is_none covered_now then ended w else rest covered_now w)
  after_result s covered rest (some (duplicate, r, w)) =
      then_put (with_duplicate r) (rest covered w)
  after_result s covered rest (some (not_saved, r, w)) = then_put with_failed (rest covered w)

  -- The loop; where `bare_pack_saved` is set the loop ends, so it is false wherever it is read.
  unfoldable pub save_in_order : ℕ → Tracked → List Candidate → List Key → World → Option Selection
  save_in_order now s [] covered w = ended w
  save_in_order now s ((i, r) ∷ candidates) covered w =
      let rest = save_in_order now s candidates in
      if not (is_none covered) && missing_already_covered s r covered false
      then rest covered w
      else after_result s covered rest (save_telegram_result now s r w)

  -- An ed2k link is left to another search.
  abbrev pub without_ed2k : List Result → List Result
  without_ed2k results = select (λ r. not (starts_with (t.casefold r.url) "ed2k://")) results

  abbrev pub checked_at : ℕ → Selection → Selection
  checked_at now a = record a { world = record (a.world) { last_checked_at = some now } }

  unfoldable pub attach_telegram_results :
      (ℕ → List Resource → Answer × List Resource)
      → ℕ
      → Tracked
      → List Result
      → World
      → Option Selection
  unfolding save_in_order
  attach_telegram_results deliver now s results w =
      let raw_matched = matching_results t s (without_ed2k results) [] in
      let ordered = fallback_result_candidates t l raises deliver s (numbered 0 raw_matched) in
      then_put (checked_at now) (
        save_in_order now s ordered []
          (record w { seen = existing_resource_rows s.base.id w.rows }))

  -- A source that is "TelegramIndex", or begins with that and a colon.
  abbrev pub is_from_index : Result → Bool
  is_from_index r = str_eq r.source "TelegramIndex" || starts_with r.source "TelegramIndex:"

  abbrev pub summary_of : Tracked → List Result → Selection → Summary
  summary_of s results a = record {
    raw_matched = length (matching_results t s (without_ed2k results) []);
    available_matched = length a.created_ids + a.duplicate_count;
    created_count = length a.created_ids;
    duplicates = a.duplicate_count;
    save_failed = a.save_failed_count;
    from_index = any is_from_index results;
  }
