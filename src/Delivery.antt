-- ===== src/Delivery.antt =====
-- app/services/subscription/delivery: the table `resources`, and the delivery of its rows.
pub mod Failure
pub mod Service
pub mod Retry
mod Examples
use togo.Common.{
  ℕ, String, Bool, true, false, Option, none, some, List, [], ◌∷◌, ◌==◌, if◌then◌else◌, first?,
  update_where,
}

pub data Status : Type 0 where
  pending delivered failed link_invalid : Status
  delivery_failed_retryable delivery_failed_final pending_recheck skipped : Status

-- A row of `resources`; a time is the number of microseconds that its text stands for.
pub record Resource : Type 0 where
  pub id : ℕ
  pub subscription_id : ℕ
  pub title : String
  pub url : String
  pub status : Status
  pub retry_count : ℕ
  pub last_error : Option String
  pub created_at : ℕ
  pub updated_at : Option ℕ

abbrev pub has_id : ℕ → Resource → Bool
has_id i r = r.id == i

abbrev pub is_delivered : Status → Bool
is_delivered delivered = true
is_delivered _ = false

-- Python's `str.casefold` and `str.strip`, which go by the tables of Unicode.
pub record TextTables : Type 0 where
  pub casefold : String → String
  pub strip : String → String
