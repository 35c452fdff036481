-- ===== src/Worker/Examples.antt =====
-- A worker with a media-library job and a retry job, and the theorems at them.
use togo.Common.{◌≡◌, refl, true, none, some, [], ◌∷◌, arith, first?, truncate}
use togo.Jobs.{Job, Queue, has_id, new_job, claimed, claim_next_job}
use togo.Jobs.Lifecycle.{heartbeat, finish, fail, run}
use togo.Worker.{together, dictionary, raised, execute, with_sidecar, pick_batch}
use togo.Worker.Exclusive.{IsExclusive, pick_batch-IsExclusive}
use togo.Worker.Finish.{Calls, Interleave, nothing, left, right, is_over, execute_together-over}

abbrev sync_job : Job
sync_job = new_job 1 "emby_subscription_sync" none none 10

abbrev retry_job : Job
retry_job = new_job 2 "retry_failed_resources" none none 20

abbrev waiting : Queue
waiting = record { jobs = sync_job ∷ retry_job ∷ []; last_id = 2 }

-- Both are claimed and run together.
pick_both :
    (pick_batch "w1" 50 51 waiting).0
    ≡ some (together (claimed "w1" 50 sync_job) (claimed "w1" 51 retry_job))
unfolding pick_batch with_sidecar claim_next_job truncate
pick_both = refl

pick_batch-IsExclusive_example : IsExclusive (pick_batch "w1" 50 51 waiting).0
pick_batch-IsExclusive_example = pick_batch-IsExclusive "w1" 50 51 waiting (omega arith)

abbrev both : Calls
both =
    (60, heartbeat 1 (some "w1") "w1")
    ∷ (61, heartbeat 2 (some "w1") "w1")
    ∷ (62, fail 2 "timeout" none)
    ∷ (63, finish 1 (some "{}"))
    ∷ []

interleaved :
    Interleave
      (execute "w1" (60 ∷ []) 63 (dictionary "{}") sync_job)
      (execute "w1" (61 ∷ []) 62 (raised "timeout") retry_job)
      both
unfolding execute
interleaved = left _ (right _ (right _ (left _ nothing)))

execute_together-over_example :
    (is_over (first? (has_id 1) (run both waiting).jobs) ≡ true)
    × (is_over (first? (has_id 2) (run both waiting).jobs) ≡ true)
execute_together-over_example =
    execute_together-over "w1" sync_job retry_job (60 ∷ []) (61 ∷ []) 63 62 (dictionary "{}")
      (raised "timeout") waiting interleaved refl refl
