-- ===== src/Search/Waves.antt =====
-- search/all.py: the search of all active subscriptions, in waves whose size may change from one to
-- the next. Parameters: the row of a subscription when its turn comes, and how its search ends. The
-- searches of one wave run beside each other; they note what they checked in the order of the wave.
use togo.Common.{
  ℕ, zero, suc, ◌+◌, String, Bool, true, false, not, Option, none, some, List, [], ◌∷◌, ◌++◌,
  if◌then◌else◌, ◌==◌, take, drop, max, length, any, map, str_eq, update_where,
}
use togo.Episodes.{Media, movie, tv}
use togo.Library.{Tracked}
use togo.Scheduling.Recent.{Listed, filter_subscriptions_for_search_all}
use togo.Search.{needs_resource_search}

-- `get_subscription(…) or subscription`
pub record Row : Type 0 where
  pub tracked : Tracked
  pub last_checked_text : String

pub data Searched : Type 0 where
  found_new : ℕ → Searched
  timed_out search_raised : Searched

-- The triple of `_search_one`, with the id of its subscription and whether that was noted as checked.
pub record Outcome : Type 0 where
  pub id : ℕ
  pub searched : ℕ
  pub created : ℕ
  pub failed : ℕ
  pub noted : Bool

-- A row of the table `subscriptions`.
pub record Checked : Type 0 where
  pub id : ℕ
  pub last_checked_at : Option ℕ

pub record Totals : Type 0 where
  pub searched : ℕ
  pub count : ℕ
  pub failed : ℕ

-- `dict.fromkeys(…)`: the first of equal ids stays.
abbrev pub fromkeys : List ℕ → List ℕ → List ℕ
fromkeys seen [] = []
fromkeys seen (i ∷ ids) =
    let rest = fromkeys (i ∷ seen) ids in if any (λ j. j == i) seen then rest else i ∷ rest

abbrev pub checked_row : ℕ → Checked → Checked
checked_row now r = record r { last_checked_at = some now }

-- `executemany`
abbrev pub mark_all : ℕ → List ℕ → List Checked → List Checked
mark_all now [] rows = rows
mark_all now (i ∷ ids) rows =
    mark_all now ids (update_where (λ r. r.id == i) (checked_row now) rows)

-- `_flush_pending_checked`
unfoldable pub flush_pending_checked : ℕ → List ℕ → List Checked → List Checked
flush_pending_checked now pending rows = mark_all now (fromkeys [] pending) rows

abbrev pub outcome : ℕ → Searched → Outcome
outcome i (found_new n) = record { id = i; searched = 1; created = n; failed = 0; noted = true }
outcome i timed_out = record { id = i; searched = 1; created = 0; failed = 1; noted = true }
outcome i search_raised = record { id = i; searched = 1; created = 0; failed = 1; noted = true }

abbrev pub not_searched : ℕ → Outcome
not_searched i = record { id = i; searched = 0; created = 0; failed = 0; noted = false }

-- `_pending_checked_ids`
abbrev pub pending_ids : List Outcome → List ℕ
pending_ids [] = []
pending_ids (o ∷ outcomes) =
    let rest = pending_ids outcomes in if o.noted then o.id ∷ rest else rest

abbrev pub totals : List Outcome → Totals
totals [] = record { searched = 0; count = 0; failed = 0 }
totals (o ∷ outcomes) =
    let rest = totals outcomes in
    record {
      searched = o.searched + rest.searched;
      count = o.created + rest.count;
      failed = o.failed + rest.failed;
    }

-- `outcomes.extend(…)`
abbrev pub outcomes_then : List Outcome → Option (List Outcome) → Option (List Outcome)
outcomes_then outcomes none = none
outcomes_then outcomes (some rest) = some (outcomes ++ rest)

module _ (fullmatch : String → Option (ℕ × ℕ)) (current : ℕ → Listed → Row)
    (search : ℕ → Bool → Row → Searched) (sizes : ℕ → ℕ) where
  abbrev pub incremental_for : Media → Row → Bool
  incremental_for movie r = r.tracked.base.in_library
  incremental_for tv r = not (str_eq r.last_checked_text "")

  -- `_prefer_incremental_telegram`
  unfoldable pub prefer_incremental_telegram : Row → Bool
  prefer_incremental_telegram r =
      if needs_resource_search fullmatch r.tracked
      then false
      else incremental_for r.tracked.base.media_type r

  unfoldable pub search_one : ℕ → Listed → Outcome
  unfolding prefer_incremental_telegram
  search_one wave s =
      let r = current wave s in
      if str_eq r.tracked.status "active"
      then outcome s.base.id (search wave (prefer_incremental_telegram r) r)
      else not_searched s.base.id

  -- The `while` loop, for at most so many waves, of which this one has a number.
  unfoldable pub search_waves : ℕ → ℕ → List Listed → Option (List Outcome)
  unfolding search_one
  search_waves turns wave [] = some []
  search_waves zero wave (s ∷ listed) = none
  search_waves (suc turns) wave (s ∷ listed) =
      let size = max 1 (sizes wave) in
      let rest = search_waves turns (suc wave) (drop size (s ∷ listed)) in
      outcomes_then (map (search_one wave) (take size (s ∷ listed))) rest

  -- `search_all_active_subscriptions`
  abbrev pub subscriptions_for : ℕ → Bool → List Listed → List Listed
  subscriptions_for now force listed =
      if force then listed else (filter_subscriptions_for_search_all fullmatch now listed).0

  abbrev pub all_done : ℕ → List Checked → Option (List Outcome) → Option (Totals × List Checked)
  all_done now rows none = none
  all_done now rows (some outcomes) =
      some (totals outcomes, flush_pending_checked now (pending_ids outcomes) rows)

  unfoldable pub search_all_active_subscriptions :
      ℕ → Bool → List Listed → List Checked → Option (Totals × List Checked)
  unfolding search_waves flush_pending_checked
  search_all_active_subscriptions now force listed rows =
      let taken = subscriptions_for now force listed in
      all_done now rows (search_waves (length taken) 0 taken)
