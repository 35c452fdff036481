-- ===== src/Search/Unique/Telegram.antt =====
-- What a search for links of 115 does to the rows of the table.
use togo.Common.{
  ℕ, refl, Bool, false, not, ◌&&◌, Option, none, some, List, [], ◌∷◌, if◌then◌else◌, inl, inr,
  Bool-cases, is_some, union, pair_equal,
}
use togo.Episodes.{Key, is_none}
use togo.Library.{Tracked}
use togo.Matching.{Texts, Result}
use togo.Saving.{Links, existing_resource_rows, resource_already_exists}
use togo.Saving.Insert.{Step, reading, World, insert_resource_safely}
use togo.Matching.Decision.{matching_results}
use togo.Saving.Fallback.{Candidate, Answer, numbered, fallback_result_candidates}
use togo.Delivery.{Resource}
use togo.Saving.Telegram.{
  Saved, created, duplicate, not_saved, saved_as, save_telegram_result, missing_coverage,
  missing_already_covered, after_result, save_in_order, without_ed2k, attach_telegram_results,
  Selection, with_created, with_duplicate, with_failed, ended,
}
use togo.Search.Unique.{
  InOrder, HasUniqueLinks, Keeps, put-Keeps, world_after, checked-HasUniqueLinks, safely-InOrder,
}

module _ (t : Texts) (l : Links) (raises : Step → Result → Bool) (s : Tracked) where
  abbrev SaveKeeps : Option (Saved × Result × World) → Type 0
  SaveKeeps none = Unit
  SaveKeeps (some (h, r, w)) = InOrder t l raises s w

  saved_as-Keeps :
      (a : Option ℕ × Result × World) → InOrder t l raises s a.2 → SaveKeeps (some (saved_as a))
  saved_as-Keeps (none, r, w) order = order
  saved_as-Keeps (some item, r, w) order = order

  save-Keeps :
      (now : ℕ) (r : Result) (w : World)
      → InOrder t l raises s w
      → SaveKeeps (save_telegram_result t l raises now s r w)
  unfolding save_telegram_result
  save-Keeps now r w order = elim (Bool-cases (raises reading r)) [
    | inl a ↦ rw a tt
    | inr a ↦ elim (Bool-cases (is_some (resource_already_exists t l s r w.seen))) [
      | inl b ↦ rw (a, b) order
      | inr b ↦
          rw (a, b)
            (saved_as-Keeps (insert_resource_safely t l raises now s r w)
              (safely-InOrder t l raises s now r w order))
    ]
  ]

  after_result-Keeps :
      (covered : List Key) (rest : List Key → World → Option Selection)
      (answer : Option (Saved × Result × World))
      → SaveKeeps answer
      → ((more : List Key) (v : World) → InOrder t l raises s v → Keeps t l raises s (rest more v))
      → Keeps t l raises s (after_result t l raises s covered rest answer)
  after_result-Keeps covered rest none order next = tt
  after_result-Keeps covered rest (some (created item, r, w)) order next =
      let covered_now = union covered (missing_coverage t l raises s r) in
      put-Keeps t l raises s (with_created item r)
        (if is_none covered_now then ended w else rest covered_now w) (λ a. refl)
        (elim (Bool-cases (is_none covered_now)) [
          | inl e ↦ rw e order
          | inr e ↦ rw e (next covered_now w order)
        ])
  after_result-Keeps covered rest (some (duplicate, r, w)) order next =
      put-Keeps t l raises s (with_duplicate r) (rest covered w) (λ a. refl) (next covered w order)
  after_result-Keeps covered rest (some (not_saved, r, w)) order next =
      put-Keeps t l raises s with_failed (rest covered w) (λ a. refl) (next covered w order)

  save_in_order-Keeps :
      (now : ℕ) (candidates : List Candidate) (covered : List Key) (w : World)
      → InOrder t l raises s w
      → Keeps t l raises s (save_in_order t l raises now s candidates covered w)
  unfolding save_in_order
  save_in_order-Keeps now [] covered w order = order
  save_in_order-Keeps now ((i, r) ∷ candidates) covered w order =
      let rest = save_in_order t l raises now s candidates in
      let next = save_in_order-Keeps now candidates in
      elim (Bool-cases
        (not (is_none covered) && missing_already_covered t l raises s r covered false)) [
          | inl skip ↦ rw skip (next covered w order)
          | inr take ↦ rw take (
              after_result-Keeps covered rest (save_telegram_result t l raises now s r w)
                (save-Keeps now r w order) next)
        ]

  -- A search for links on Telegram leaves no two effective rows of the subscription whose links have
  -- the same key, if there were none before.
  pub attach_telegram_results-HasUniqueLinks :
      (deliver : ℕ → List Resource → Answer × List Resource) (now : ℕ) (results : List Result)
      (w : World)
      → HasUniqueLinks t l raises s w
      → HasUniqueLinks t l raises s
          (world_after t l raises s w (attach_telegram_results t l raises deliver now s results w))
  unfolding attach_telegram_results
  attach_telegram_results-HasUniqueLinks deliver now results w unique =
      let raw_matched = matching_results t s (without_ed2k t l raises results) [] in
      let ordered = fallback_result_candidates t l raises deliver s (numbered 0 raw_matched) in
      let start = record w { seen = existing_resource_rows s.base.id w.rows } in
      checked-HasUniqueLinks t l raises s now w (save_in_order t l raises now s ordered [] start)
        unique (save_in_order-Keeps now ordered [] start (refl, unique))
