-- ===== src/Search/Unique.antt =====
-- What a search on Telegram does to the rows of the table.
pub mod Ed2k
pub mod Telegram
pub mod Stages
use togo.Common.{
  ℕ, ◌+◌, ◌≡◌, refl, sym, ap, ◌∙◌, String, Bool, true, false, not, ◌&&◌, ◌||◌, Option, none, some,
  List, [], ◌∷◌, ◌++◌, arith, if◌then◌else◌, inl, inr, Bool-cases, any, is_some, union, pair_equal,
  ==_refl,
}
use togo.Episodes.{Key, is_tv, is_none}
use togo.Library.{Tracked}
use togo.Matching.{Texts, Result}
use togo.Saving.{
  Links, LinkKey, Seen, with_key, has_key, is_effective, resource_dedupe_key,
  existing_resource_rows, build_resource_row_index, resource_already_exists,
}
use togo.Saving.Insert.{
  Step, reading, inserting, World, Outcome, returned, raised, insert_or_ignore, inserted,
  insert_resource_safely, new_row, same_row,
}
use togo.Saving.Rows.{
  key_open, has_unique_links, existing-append, insert_resource_safely-existing_resource_rows,
  insert_resource_safely-has_unique_links,
}
use togo.Matching.Decision.{resource_allowed, matching_results}
use togo.Saving.Fallback.{Candidate, Answer, numbered, fallback_result_candidates}
use togo.Delivery.{Resource}
use togo.Saving.Telegram.{
  Saved, created, duplicate, not_saved, saved_as, save_telegram_result, missing_coverage,
  missing_already_covered, after_result, save_in_order, without_ed2k, attach_telegram_results,
  Selection, with_created, with_duplicate, with_failed, then_put, ended, checked_at,
}
use togo.Search.Ed2k.{
  Handled, passed_over, refused, known, saved_as_id, inserted_as, has_same_key, resource_url_exists,
  needed_episodes, is_not_needed, handle_link, after_link, save_links, only_ed2k, attach_found,
  attach_ed2k,
}

module _ (t : Texts) (l : Links) (raises : Step → Result → Bool) (s : Tracked) where
  -- The caller's list is what a SELECT reads, and no two effective rows have links with the same key.
  abbrev pub InOrder : World → Type 0
  InOrder w =
      (w.seen ≡ existing_resource_rows s.base.id w.rows)
      × (has_unique_links t l raises s w.seen ≡ true)

  abbrev pub HasUniqueLinks : World → Type 0
  HasUniqueLinks w = has_unique_links t l raises s (existing_resource_rows s.base.id w.rows) ≡ true

  abbrev pub Keeps : Option Selection → Type 0
  Keeps none = Unit
  Keeps (some a) = InOrder a.world

  pub put-Keeps :
      (f : Selection → Selection) (o : Option Selection)
      → ((a : Selection) → (f a).world ≡ a.world)
      → Keeps o
      → Keeps (then_put f o)
  put-Keeps f none same h = tt
  put-Keeps f (some a) same h = rw (same a) h

  -- The tables afterwards, where a raise has rolled them back.
  abbrev pub world_after : World → Option Selection → World
  world_after w none = w
  world_after w (some a) = a.world

  pub checked-HasUniqueLinks :
      (now : ℕ) (w : World) (o : Option Selection)
      → HasUniqueLinks w
      → Keeps o
      → HasUniqueLinks (world_after w (then_put (checked_at t l raises now) o))
  checked-HasUniqueLinks now w none unique kept = unique
  checked-HasUniqueLinks now w (some a) unique (synced, links) = rw (sym synced) links

  pub safely-InOrder :
      (now : ℕ) (r : Result) (w : World)
      → InOrder w
      → InOrder (insert_resource_safely t l raises now s r w).2
  safely-InOrder now r w (synced, unique) =
      let a = insert_resource_safely t l raises now s r w in
      let synced_now = insert_resource_safely-existing_resource_rows t l raises now s r w synced in
      (
        synced_now,
        ap (has_unique_links t l raises s) synced_now
            ∙ insert_resource_safely-has_unique_links t l raises now s r w synced
                (ap (has_unique_links t l raises s) (sym synced) ∙ unique),
      )
