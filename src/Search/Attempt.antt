-- ===== src/Search/Attempt.antt =====
-- search/service.py: one attempt to find resources for a subscription. Parameters: the library's answer
-- for the subscription, the searches, and the delivery of a resource. The resources that one search
-- made are delivered in their order, and the notification of a completion does not raise.
use togo.Common.{
  ℕ, ◌+◌, String, Bool, true, false, not, ◌&&◌, Option, none, some, List, [], ◌∷◌, ◌++◌,
  if◌then◌else◌, leb, ltb, take, select, map, seconds, truncate, str_eq, update_where, coalesce,
}
use togo.Delivery.{Resource, failed, has_id}
use togo.Library.{Tracked, subscription_should_hide, mark_completed_subscription}
use togo.Matching.{Texts, Result}
use togo.Matching.Decision.{filled, matching_results}
use togo.Saving.{Links, of_subscription}
use togo.Saving.Insert.{Step, World}
use togo.Saving.Fallback.{
  Answer, delivered_now, not_delivered, deliver_raised, Attempts, is_pending,
  attach_fallback_results_until_delivered,
}
use togo.Search.{should_skip_fallback, needs_resource_search}
use togo.Search.Action.{Action, pure, modify, ◌>>=◌, ◌>>◌}
use togo.Search.Stages.{Query, Found, search_telegram_first}

-- The answer of `search_fallback_sources`: the results of each source, or its status.
pub data Sourced : Type 0 where
  groups : List (List Result) → Sourced
  timed_out source_error : Sourced

-- Why an attempt ended; but for the last, the code answers an empty list.
pub data Ending : Type 0 where
  inactive nothing_missing nothing_new : Ending
  completed : Tracked → Ending
  made : List ℕ → Ending

abbrev pub created_of : Ending → List ℕ
created_of (made ids) = ids
created_of ending = []

abbrev pub stuck_after : ℕ
stuck_after = seconds 600

-- The SELECT of `list_stuck_pending_resources` for a subscription.
abbrev pub is_stuck : ℕ → ℕ → Resource → Bool
is_stuck i now r =
    is_pending r.status && ltb (r.created_at + stuck_after) now && of_subscription i r

abbrev pub insert_newest : Resource → List Resource → List Resource
insert_newest r [] = r ∷ []
insert_newest r (q ∷ rows) =
    let rest = insert_newest r rows in
    if leb q.created_at r.created_at then r ∷ q ∷ rows else q ∷ rest

abbrev pub newest_first : List Resource → List Resource
newest_first [] = []
newest_first (r ∷ rows) = insert_newest r (newest_first rows)

abbrev pub list_stuck : ℕ → ℕ → List Resource → List Resource
list_stuck i now rows = take 20 (newest_first (select (is_stuck i now) rows))

abbrev pub failed_as : ℕ → String → Resource → Resource
failed_as now error r = record r { status = failed; last_error = some error; updated_at = some now }

abbrev pub fail_pending : ℕ → (Resource → Resource) → List Resource → List Resource
fail_pending i f rows = update_where (λ r. has_id i r && is_pending r.status) f rows

-- The loop of UPDATEs.
abbrev pub fail_stuck : ℕ → List Resource → List Resource → List Resource
fail_stuck now [] rows = rows
fail_stuck now (item ∷ stuck) rows =
    fail_stuck now stuck (fail_pending item.id (failed_as now "资源投递卡住（pending 超时），已标记为失败等待重试") rows)

unfoldable pub retry_stuck_pending_resources : ℕ → ℕ → List Resource → List Resource
retry_stuck_pending_resources i now rows = fail_stuck now (list_stuck i now rows) rows

abbrev pub error_kept : String → ℕ → Resource → Resource
error_kept error now r = record r {
  status = failed;
  last_error = coalesce r.last_error (some (truncate 500 error));
  updated_at = some now;
}

abbrev pub mark_resource_failed_if_pending : ℕ → ℕ → String → List Resource → List Resource
mark_resource_failed_if_pending now i error rows = fail_pending i (error_kept error now) rows

-- The caller's tables, with other rows.
abbrev pub with_rows : List Resource → World → World
with_rows rows w = record w { rows = rows }

-- `_deliver_created_resource`, after the delivery.
abbrev pub after_delivering : ℕ → ℕ → World → Answer × List Resource → Bool × World
after_delivering now i w (delivered_now, rows) = (true, with_rows rows w)
after_delivering now i w (not_delivered, rows) =
    (false, with_rows (mark_resource_failed_if_pending now i "资源投递失败，继续搜索兜底资源" rows) w)
after_delivering now i w (deliver_raised error, rows) =
    (false, with_rows (mark_resource_failed_if_pending now i error rows) w)

module _ (t : Texts) (l : Links) (raises : Step → Result → Bool)
    (deliver : ℕ → List Resource → Answer × List Resource) (history : Query → List Result)
    (sources : Tracked → Sourced) (now : ℕ) where
  -- `_deliver_created_resources`: each is delivered, whatever became of those before it.
  abbrev pub deliver_all : List ℕ → World → Bool × World
  deliver_all [] w = (true, w)
  deliver_all (i ∷ ids) w =
      let (ok, v) = after_delivering now i w (deliver i w.rows) in
      let (others, u) = deliver_all ids v in (ok && others, u)

  abbrev pub deliver_created_resources : List ℕ → Action Bool
  deliver_created_resources ids w = let (ok, v) = deliver_all ids w in (some ok, v)

  abbrev pub attempts_of : World → Option (Bool × Attempts) → Option (List ℕ) × World
  attempts_of w none = (none, w)
  attempts_of w (some (ok, a)) = (some a.created, a.world)

  abbrev pub attach_sourced : Tracked → Sourced → Action (List ℕ)
  attach_sourced s (groups results) w = attempts_of w (
      attach_fallback_results_until_delivered t l raises deliver now s
        (map (λ group. matching_results t s group []) results) w)
  attach_sourced s timed_out w = pure [] w
  attach_sourced s source_error w = pure [] w

  -- `_search_fallback_when_needed`
  unfoldable pub search_fallback_when_needed : Tracked → Action (List ℕ)
  search_fallback_when_needed s = attach_sourced s (sources s)

  -- The other sources, after what Telegram has made.
  abbrev pub with_fallback : Tracked → List ℕ → Action Ending
  with_fallback s created = do
    fallback_created ← search_fallback_when_needed s
    pure (made (created ++ fallback_created))

  abbrev pub unless_delivered : Tracked → List ℕ → Bool → Action Ending
  unless_delivered s created ok = if ok then pure (made created) else with_fallback s created

  unfoldable pub after_telegram : Tracked → Found → Action Ending
  after_telegram s found =
      if filled found.created
      then deliver_created_resources found.created >>= unless_delivered s found.created
      else if filled found.matches && should_skip_fallback t.fullmatch found.summary s.base
      then pure nothing_new
      else with_fallback s found.created

  abbrev pub search_needed : Bool → Tracked → Action Ending
  search_needed incremental s =
      modify (λ w. with_rows (retry_stuck_pending_resources s.base.id now w.rows) w)
      >> (search_telegram_first t l raises deliver history now s incremental >>= after_telegram s)

  -- What follows the library's answer; `none` stands for a raise.
  unfoldable pub search_enriched : Bool → Option Tracked → Action Ending
  search_enriched incremental none w = (none, w)
  search_enriched incremental (some s) w =
      if subscription_should_hide t.fullmatch s
      then pure (completed (mark_completed_subscription now s).1) w
      else if not (needs_resource_search t.fullmatch s)
      then pure nothing_missing w
      else search_needed incremental s w

  -- `finally: …`
  abbrev pub finally_checked : Bool → Option Ending × World → Option Ending × World
  finally_checked mark_checked (answer, w) =
      if mark_checked then (answer, record w { last_checked_at = some now }) else (answer, w)

  -- `search_and_attach_resources`, with the row of the subscription.
  unfoldable pub search_and_attach_resources :
      (Tracked → Option Tracked) → Bool → Bool → Option Tracked → Action Ending
  search_and_attach_resources enriched incremental mark_checked none w = pure inactive w
  search_and_attach_resources enriched incremental mark_checked (some s) w =
      if str_eq s.status "active"
      then finally_checked mark_checked (search_enriched incremental (enriched s) w)
      else pure inactive w
