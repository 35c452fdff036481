-- ===== src/Jobs/Stats.antt =====
-- What the reports of the queue say.
use togo.Common.{
  ℕ, ◌+◌, ◌≤◌, ◌≡◌, refl, some, List, [], ◌∷◌, reverse, arith, length, length-take, min, select,
  All, All-take, All-select, count_where, count_where-reverse, length-select, true,
}
use togo.Jobs.{
  Job, Queue, Status, queued, running, done, failed, has_status, list_limit, list_jobs,
  job_queue_stats,
}

count_statuses :
    (js : List Job)
    → count_where (has_status queued) js
        + count_where (has_status running) js
        + count_where (has_status done) js
        + count_where (has_status failed) js
      ≡ length js
count_statuses [] = refl
count_statuses (j ∷ js) = ground (arith, count_statuses js)

-- The total of the report is the number of rows of the table.
pub total-job_queue_stats : (q : Queue) → (job_queue_stats q).total ≡ length q.jobs
unfolding job_queue_stats
total-job_queue_stats q = count_statuses q.jobs

-- A report has at least one place and at most two hundred; it lists only rows of the status asked
-- for, all of them if there are fewer than the places.
pub list_jobs-limit :
    (limit : ℕ) (s : Status) (q : Queue)
    → (length (list_jobs limit (some s) q) ≤ 200)
      × All (λ j. has_status s j ≡ true) (list_jobs limit (some s) q)
      × (length (list_jobs limit (some s) q)
          ≡ min (list_limit limit) (count_where (has_status s) q.jobs))
unfolding list_jobs
list_jobs-limit limit s q =
    let found = select (has_status s) (reverse q.jobs) in
    (
      ground (arith, length-take (list_limit limit) found),
      All-take _ (list_limit limit) found (All-select (has_status s) (reverse q.jobs)),
      rw (length-take, length-select, count_where-reverse),
    )
