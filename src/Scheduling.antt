-- ===== src/Scheduling.antt =====
-- app/services/subscription/search/tasks.py and schedule.py: the jobs that searches are scheduled as,
-- and which subscriptions a search of all of them takes, in what order. The texts of payloads are
-- parameters; the calls of the job queue do not raise.
pub mod Active
pub mod Recent
pub mod Kept
mod Examples
use togo.Common.{
  ℕ, ◌+◌, ◌*◌, String, Bool, true, false, not, ◌&&◌, ◌||◌, Option, none, some, if◌then◌else◌, ltb,
  seconds,
}
use togo.Jobs.{
  Job, Queue, Status, queued, running, has_status, stamp, latest_job, mark_job_failed, create_job,
}

-- JSON texts.
pub record Payloads : Type 0 where
  pub of_id : ℕ → String
  pub of_limit : ℕ → String
  pub of_force : Bool → String
  pub has_force : String → Bool

-- The dictionary that is answered, of which `ok` and `running` are always true.
pub record Scheduled : Type 0 where
  pub is_queued : Bool
  pub job_id : ℕ
  pub reused : Bool

abbrev pub is_active : Job → Bool
is_active j = has_status queued j || has_status running j

abbrev pub max_age : ℕ
max_age = seconds 180

-- `_job_is_stale`
abbrev pub job_is_stale : ℕ → Job → Bool
job_is_stale now j =
    if has_status running j then ltb (stamp j + max_age) now else ltb (stamp j + max_age * 2) now

abbrev pub created : String → Option ℕ → Option String → ℕ → Queue → Scheduled × Queue
created kind target payload now q =
    let (i, q') = create_job kind target payload now q in
    (record { is_queued = true; job_id = i; reused = false }, q')

abbrev pub reused_job : Job → Scheduled
reused_job j = record { is_queued = has_status queued j; job_id = j.id; reused = true }

-- What is done with the latest job of the kind.
abbrev pub reuse_or_replace :
    String → Option ℕ → Option String → ℕ → Queue → Option Job → Scheduled × Queue
reuse_or_replace kind target payload now q none = created kind target payload now q
reuse_or_replace kind target payload now q (some j) =
    if not (is_active j)
    then created kind target payload now q
    else if not (job_is_stale now j)
    then (reused_job j, q)
    else created kind target payload now
        (mark_job_failed j.id "stale job superseded by reschedule" none now q)

unfoldable pub reuse_or_create_job :
    String → Option ℕ → Option String → ℕ → Queue → Scheduled × Queue
reuse_or_create_job kind target payload now q =
    reuse_or_replace kind target payload now q (latest_job kind target q)

abbrev pub search_all_kind : String
search_all_kind = "subscription_search_all"

module _ (payloads : Payloads) where
  open payloads use {of_id, of_limit, of_force, has_force}

  abbrev pub schedule_subscription_search : ℕ → ℕ → Queue → Scheduled × Queue
  schedule_subscription_search i now q =
      reuse_or_create_job "subscription_search" (some i) (some (of_id i)) now q

  abbrev pub forced : ℕ → Queue → Option Job → Scheduled × Queue
  forced now q none = created search_all_kind none (some (of_force true)) now q
  forced now q (some j) =
      if is_active j && has_force j.payload
      then (reused_job j, q)
      else created search_all_kind none (some (of_force true)) now (
          if has_status queued j
          then mark_job_failed j.id "superseded by manual force search-all" none now q
          else q)

  -- `_schedule_forced_search_all`
  unfoldable pub schedule_forced_search_all : ℕ → Queue → Scheduled × Queue
  schedule_forced_search_all now q = forced now q (latest_job search_all_kind none q)

  abbrev pub schedule_search_all_active_subscriptions : Bool → ℕ → Queue → Scheduled × Queue
  schedule_search_all_active_subscriptions force now q =
      if force
      then schedule_forced_search_all now q
      else reuse_or_create_job search_all_kind none (some (of_force force)) now q

  abbrev pub schedule_emby_subscription_sync : ℕ → Queue → Scheduled × Queue
  schedule_emby_subscription_sync now q =
      reuse_or_create_job "emby_subscription_sync" none none now q

  abbrev pub schedule_retry_failed_resources : ℕ → ℕ → Queue → Scheduled × Queue
  schedule_retry_failed_resources limit now q =
      reuse_or_create_job "retry_failed_resources" none (some (of_limit limit)) now q
