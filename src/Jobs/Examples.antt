-- ===== src/Jobs/Examples.antt =====
-- A small table, what the operations do with it, and the theorems at it.
use togo.Common.{truncate, ℕ, String, ◌≡◌, refl, none, some, List, [], ◌∷◌, arith}
use togo.Jobs.{
  Queue, empty, running, new_job, claimed, requeued, claim_next_job, requeue_stale_running_jobs,
}
use togo.Jobs.Stale.{requeue_stale_running_jobs-eq}
use togo.Jobs.Lifecycle.{Call, create, claim, finish, run, IsSound, run-empty-IsSound}
use togo.Jobs.Drain.{Drains, claim_at-Drains}

abbrev sync : String
sync = "emby_subscription_sync"

abbrev sample : Queue
sample = record {
  jobs =
      new_job 1 "subscription_search" (some 7) none 10
      ∷ record (new_job 2 sync none none 20) { status = running; started_at = some 25 }
      ∷ new_job 4 sync none none 40
      ∷ [];
  last_id = 5;
}

-- The oldest job of the kind asked for is claimed.
claim_sync :
    (claim_next_job (sync ∷ []) (some "w1") "host:1" 50 sample).0
    ≡ some (claimed "w1" 50 (new_job 4 sync none none 40))
unfolding claim_next_job truncate
claim_sync = refl

claim_at-Drains_example : Drains [] (some "w1") "host:1" (50 ∷ 51 ∷ 52 ∷ []) 0 sample
claim_at-Drains_example =
    claim_at-Drains [] (some "w1") "host:1" (50 ∷ 51 ∷ 52 ∷ []) sample (omega arith)

requeue_stale_running_jobs-eq_example : requeue_stale_running_jobs 100 130 sample ≡ (
  1,
  record sample {
    jobs =
        new_job 1 "subscription_search" (some 7) none 10
        ∷ requeued 130
            (record (new_job 2 sync none none 20) { status = running; started_at = some 25 })
        ∷ new_job 4 sync none none 40
        ∷ [];
  },
)
requeue_stale_running_jobs-eq_example = requeue_stale_running_jobs-eq 100 130 sample (omega arith)

abbrev day : List (ℕ × Call)
day = (10, create sync none none) ∷ (11, claim [] (some "w1") "host:1") ∷ (12, finish 1 none) ∷ []

run-empty-IsSound_example : IsSound (run day empty)
run-empty-IsSound_example = run-empty-IsSound day
