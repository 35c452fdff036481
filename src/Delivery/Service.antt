-- ===== src/Delivery/Service.antt =====
-- delivery/service.py, delivery/executor.py and the statements of delivery/state.py: one delivery.
-- Parameters: the link functions (regular expressions over the URL), the guard of
-- resource/guard.py, and the answers of the 115 and Telegram adapters, which may differ from one
-- call to the next: an answer gets the number of the deliveries that were tried before it.
pub mod Rows
pub mod Once
pub mod Steps
pub mod Outcome
pub mod Stale
use togo.Common.{
  ℕ, ◌+◌, String, Bool, true, false, not, ◌&&◌, Option, none, some, List, [], ◌∷◌, ◌==◌,
  if◌then◌else◌, is_some, str_eq, coalesce, or_else, or_text, truncate, length, any, first?,
  update_where,
}
use togo.Delivery.{Status, delivered, skipped, Resource, has_id, is_delivered, TextTables}
use togo.Delivery.Failure.{delivery_failed_status}

-- The kind and the value of a dedupe key.
pub data KeyKind : Type 0 where
  magnet share url : KeyKind

abbrev pub same_kind : KeyKind → KeyKind → Bool
same_kind magnet magnet = true
same_kind share share = true
same_kind url url = true
same_kind _ _ = false

abbrev pub Key : Type 0
Key = KeyKind × String

abbrev pub same_key : Key → Option Key → Bool
same_key k none = false
same_key (k, v) (some (j, w)) = same_kind k j && str_eq v w

-- What an adapter call comes to.
pub data Answer : Type 0 where
  answered : Bool → Answer
  timed_out : Answer
  raised : String → Answer

pub record Environment : Type 0 where
  pub tables : TextTables
  pub dedupe_key : String → Option Key
  pub normalize_115 : String → Option String
  pub is_valid_download_link : String → Bool
  pub is_115 : String → Bool
  pub is_allowed : Resource → Bool
  pub by_bot : Bool
  pub forward_to_bot : ℕ → String → Answer
  pub transfer : ℕ → String → Resource → Answer
  pub offline_download : ℕ → String → Resource → Answer

-- The table, and what was tried: the id and the success of each delivery, the newest first.
pub record World : Type 0 where
  pub rows : List Resource
  pub tried : List (ℕ × Bool)

-- The JOIN with `subscriptions` drops no row, since the database enforces the foreign key.
unfoldable pub load_resource : ℕ → World → Option Resource
load_resource i w = first? (has_id i) w.rows

-- The two SELECTs of `_existing_effective_delivery`.
abbrev pub delivered_at : ℕ → String → Resource → Bool
delivered_at i value r = not (has_id i r) && is_delivered r.status && str_eq r.url value

abbrev pub by_url : ℕ → Key → List Resource → Option Resource
by_url i (kind, value) rows =
    if not (same_kind kind magnet) && not (str_eq value "")
    then first? (delivered_at i value) rows
    else none

abbrev pub on_row : (Resource → Bool) → (Resource → Resource) → World → World
on_row p f w = record w { rows = update_where p f w.rows }

abbrev pub skipped_row : ℕ → Resource → Resource
skipped_row now r = record r {
  status = skipped;
  last_error = some "资源不在订阅缺失范围内，已跳过投递";
  updated_at = some now;
}

abbrev pub not_delivered_with_id : ℕ → Resource → Bool
not_delivered_with_id i r = has_id i r && not (is_delivered r.status)

abbrev pub duplicate_row : ℕ → Resource → Resource
duplicate_row now r = record r { status = delivered; last_error = none; updated_at = some now }

module _ (env : Environment) where
  open env use {
    tables, dedupe_key, normalize_115, is_valid_download_link, is_115, is_allowed, by_bot,
    forward_to_bot, transfer, offline_download,
  }

  abbrev pub delivered_under : ℕ → Key → Resource → Bool
  delivered_under i key r =
      not (has_id i r) && is_delivered r.status && same_key key (dedupe_key r.url)

  abbrev pub by_key : ℕ → Key → List Resource → Option Resource
  by_key i key rows = coalesce (by_url i key rows) (first? (delivered_under i key) rows)

  abbrev pub under_key : ℕ → List Resource → Option Key → Option Resource
  under_key i rows none = none
  under_key i rows (some key) = by_key i key rows

  unfoldable pub existing_effective_delivery : Resource → World → Option Resource
  existing_effective_delivery r w = under_key r.id w.rows (dedupe_key r.url)

  -- `_update_resource_delivery_status`
  abbrev pub updated_row : Bool → String → ℕ → Resource → Resource
  updated_row ok message now r = record r {
    status = if ok then delivered else delivery_failed_status tables message;
    retry_count = if ok then 0 else r.retry_count + 1;
    last_error = if ok then none else some (truncate 500 message);
    updated_at = some now;
  }

  unfoldable pub deliver_resource_url : ℕ → Resource → Answer × String
  deliver_resource_url n r =
      let value = tables.strip r.url in
      let url = or_text (or_else (normalize_115 value) "") value in
      if str_eq url ""
      then (answered false, "资源链接为空")
      else if not (is_valid_download_link url)
      then (answered false, "资源链接格式无效")
      else if by_bot
      then (forward_to_bot n url, "")
      else if is_115 url
      then (transfer n url r, "")
      else (offline_download n url r, "")

  -- `_perform_delivery`: a timeout or an exception is a failure with a message of its own.
  abbrev pub outcome_of : Answer × String → Bool × String
  outcome_of (answered ok, message) = (ok, message)
  outcome_of (timed_out, message) = (false, "投递超时（300 秒）")
  outcome_of (raised error, message) = (false, error)

  unfoldable pub perform_delivery : Resource → World → Bool × String
  unfolding deliver_resource_url
  perform_delivery r w = outcome_of (deliver_resource_url (length w.tried) r)

  abbrev pub record_outcome : ℕ → Resource → Bool × String → World → Bool × World
  record_outcome now r (ok, message) w = (
    ok,
    record {
      rows = update_where (has_id r.id) (updated_row ok message now) w.rows;
      tried = (r.id, ok) ∷ w.tried;
    },
  )

  -- `_deliver_resource_locked` with the row that `deliver_resource` read before it took the lock.
  unfoldable pub deliver_locked : ℕ → Resource → World → Bool × World
  unfolding existing_effective_delivery perform_delivery
  deliver_locked now r w =
      if is_delivered r.status
      then (true, w)
      else if not (is_allowed r)
      then (false, on_row (not_delivered_with_id r.id) (skipped_row now) w)
      else if is_some (existing_effective_delivery r w)
      then (true, on_row (has_id r.id) (duplicate_row now) w)
      else record_outcome now r (perform_delivery r w) w

  abbrev pub deliver_loaded : ℕ → Option Resource → World → Bool × World
  deliver_loaded now none w = (false, w)
  deliver_loaded now (some r) w = deliver_locked now r w

  -- `deliver_resource`, with nothing between the reading of the row and the lock.
  unfoldable pub deliver_resource : ℕ → ℕ → World → Bool × World
  unfolding load_resource
  deliver_resource now i w = deliver_loaded now (load_resource i w) w
