-- ===== src/Worker.antt =====
-- app/services/job_worker.py: the loop that claims queued jobs and executes them.
-- What a job's kind makes the service do (`_dispatch_blocking`) is a parameter: an outcome for the
-- job. The heartbeat task and the execution of a second job run beside the first: the calls that
-- they make of the queue come as lists, in any interleaving.
pub mod Exclusive
pub mod Finish
mod Examples
use togo.Common.{
  ℕ, ◌+◌, String, Bool, true, false, ◌||◌, Option, none, some, List, [], ◌∷◌, ◌++◌, map, ltb, ◌==◌,
  if◌then◌else◌, str_eq, any,
}
use togo.Jobs.{Job, Queue, claim_next_job, requeue_stale_running_jobs}
use togo.Jobs.Lifecycle.{Call, finish, fail, heartbeat}

abbrev pub supported_kinds : List String
supported_kinds =
    "subscription_search" ∷ "subscription_search_all" ∷ "emby_subscription_sync"
    ∷ "retry_failed_resources" ∷ []

abbrev pub non_tg_kinds : List String
non_tg_kinds = "emby_subscription_sync" ∷ "retry_failed_resources" ∷ []

abbrev pub tg_kinds : List String
tg_kinds = "subscription_search" ∷ "subscription_search_all" ∷ []

-- The jobs that one turn of the loop executes: one, or two beside each other.
pub data Batch : Type 0 where
  alone : Job → Batch
  together : Job → Job → Batch

abbrev pub kind_of_tg : Job → Bool
kind_of_tg j = any (λ s. str_eq j.kind s) tg_kinds

-- The choice of `_execute_with_sidecars` once the second claim is made.
abbrev pub pair_up : Job → Option Job × Queue → Batch × Queue
pair_up job (none, q) = (alone job, q)
pair_up job (some extra, q) = (if extra.id == job.id then alone job else together job extra, q)

unfoldable pub with_sidecar : String → ℕ → Job → Queue → Batch × Queue
with_sidecar instance_id now job q =
    if kind_of_tg job
    then (alone job, q)
    else pair_up job (claim_next_job non_tg_kinds (some instance_id) instance_id now q)

abbrev after_claim : String → ℕ → Option Job × Queue → Option Batch × Queue
after_claim instance_id now (none, q) = (none, q)
after_claim instance_id now (some job, q) =
    let (batch, q') = with_sidecar instance_id now job q in (some batch, q')

-- The claims of one turn of `_run`, the first at `now`, the second at `later`.
unfoldable pub pick_batch : String → ℕ → ℕ → Queue → Option Batch × Queue
pick_batch instance_id now later q =
    after_claim instance_id later
      (claim_next_job supported_kinds (some instance_id) instance_id now q)

-- `if now - last_requeue > 60` of `_run`: the new `last_requeue` and the table. `tick` is the
-- loop's clock in seconds, `now` the wall clock, `max_age` the default of the requeue.
unfoldable pub requeue_turn : ℕ → ℕ → ℕ → ℕ → Queue → ℕ × Queue
requeue_turn max_age tick last_requeue now q =
    if ltb (last_requeue + 60) tick
    then (tick, (requeue_stale_running_jobs max_age now q).1)
    else (last_requeue, q)

-- What `_dispatch_blocking` does: it returns a dictionary, something else, or raises.
pub data Outcome : Type 0 where
  dictionary : String → Outcome
  other : Outcome
  raised : String → Outcome

abbrev pub end_call : ℕ → Outcome → Call
end_call i (dictionary text) = finish i (some text)
end_call i other = finish i (some "{\"ok\":true}")
end_call i (raised error) = fail i error none

-- The calls that `_execute` makes of the queue: heartbeats, then the end.
unfoldable pub execute : String → List ℕ → ℕ → Outcome → Job → List (ℕ × Call)
execute instance_id [] ends outcome job = (ends, end_call job.id outcome) ∷ []
execute instance_id (t ∷ beats) ends outcome job =
    (t, heartbeat job.id (some instance_id) instance_id)
    ∷ execute instance_id beats ends outcome job
