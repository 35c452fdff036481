-- ===== src/Jobs/Stale.antt =====
-- What `requeue_stale_running_jobs` puts back.
use native.Mathlib.Nat.{le_refl}
use mathlib.Core.Option
use togo.Common.{
  ℕ, ◌+◌, ◌≤◌, ◌<◌, String, ◌≡◌, refl, Bool, not, ◌&&◌, Option, none, some, List, [], ◌∷◌, arith,
  ==_refl, if◌then◌else◌, first?, first?-passes, select, Ascending-update_where, update_where,
  count_where,
}
use togo.Jobs.{
  Job, Queue, running, has_id, has_status, is_fresh, requeued, requeue_rows, IsQueue,
  requeue_stale_running_jobs, touch_job_heartbeat, worker_name, beat_row, is_running_with_id,
}
use togo.Jobs.Keyed.{Rising, first?-update_where, update_past, Rising-select}

-- A running row whose last sign of life is `max_age` old.
abbrev pub is_stale : ℕ → ℕ → Job → Bool
is_stale max_age now j = has_status running j && not (is_fresh max_age now j)

module _ (max_age now : ℕ) where
  -- Rows with higher ids do not touch the first row of the table.
  requeue_rows-above :
      (rows : List Job) (j : Job) (js : List Job) (count lo hi : ℕ)
      → j.id ≤ lo
      → Rising lo rows hi
      → requeue_rows max_age now rows (j ∷ js) count
        ≡ (let (rest, n) = requeue_rows max_age now rows js count in (j ∷ rest, n))
  unfolding requeue_rows
  requeue_rows-above [] j js count lo hi le h = refl
  requeue_rows-above (r ∷ rows) j js count lo hi le h = ground (
    arith,
    requeue_rows-above rows j js count r.id hi (omega arith) h.1,
    requeue_rows-above rows j (write r js) (count + 1) r.id hi (omega arith) h.1,
  )
    where
      write : Job → List Job → List Job
      write r = update_where (λ j. has_id r.id j && has_status running j) (requeued now)

  requeue_rows-eq :
      (js : List Job) (count lo hi : ℕ)
      → Rising lo js hi
      → requeue_rows max_age now (select (has_status running) js) js count ≡ (
        update_where (is_stale max_age now) (requeued now) js,
        count + count_where (is_stale max_age now) js,
      )
  unfolding requeue_rows
  requeue_rows-eq [] count lo hi h = ground arith
  requeue_rows-eq (j ∷ js) count lo hi h =
      let rows = select (has_status running) js in
      let above = Rising-select (has_status running) js j.id hi h.1 in
      ground (
        arith,
        requeue_rows-above rows j js count j.id hi (le_refl _) above,
        requeue_rows-above rows (requeued now j) js (count + 1) j.id hi (le_refl _) above,
        requeue_rows-eq js count j.id hi h.1,
        requeue_rows-eq js (count + 1) j.id hi h.1,
        update_past (has_status running) (requeued now) j.id js j.id hi (le_refl _) h.1,
        ==_refl j.id,
      )

-- One pass over the table says what the loop of updates by id does: exactly the running rows whose
-- last sign of life is at least `max_age` old go back to the queue, and their number is returned.
pub requeue_stale_running_jobs-eq :
    (max_age now : ℕ) (q : Queue)
    → IsQueue q
    → requeue_stale_running_jobs max_age now q ≡ (
      count_where (is_stale max_age now) q.jobs,
      record q { jobs = update_where (is_stale max_age now) (requeued now) q.jobs },
    )
unfolding requeue_stale_running_jobs
requeue_stale_running_jobs-eq max_age now q h =
    ground (arith, requeue_rows-eq max_age now q.jobs 0 0 q.last_id h)

-- The row of a job that a heartbeat reached less than `max_age` before stays as it is.
pub requeue-touch :
    (i max_age t now : ℕ) (worker : Option String) (instance_id : String) (q : Queue)
    → now < t + max_age
    → IsQueue q
    → let touched = touch_job_heartbeat i worker instance_id t q in
      first? (has_id i) (requeue_stale_running_jobs max_age now touched).1.jobs
      ≡ first? (has_id i) touched.jobs
unfolding touch_job_heartbeat
requeue-touch i max_age t now worker instance_id q soon h = go (first? (has_id i) q.jobs) refl
  where
    beat : Job → Job
    beat = beat_row (worker_name worker instance_id) t

    reached : Job → Bool
    reached = is_running_with_id i

    touched : Queue
    touched = touch_job_heartbeat i worker instance_id t q

    ordered : IsQueue touched
    ordered = Ascending-update_where (λ j. j.id) reached beat q.jobs 0 q.last_id (λ j. refl) h

    before :
        first? (has_id i) (requeue_stale_running_jobs max_age now touched).1.jobs
        ≡ Option.map
            (λ j. if is_stale max_age now j then requeued now j else j)
            (Option.map (λ j. if reached j then beat j else j) (first? (has_id i) q.jobs))
    before = rw (
      requeue_stale_running_jobs-eq max_age now touched ordered,
      first?-update_where i (is_stale max_age now) (requeued now) touched.jobs (λ j. refl),
      first?-update_where i reached beat q.jobs (λ j. refl),
    )

    after :
        first? (has_id i) touched.jobs
        ≡ Option.map (λ j. if reached j then beat j else j) (first? (has_id i) q.jobs)
    after = first?-update_where i reached beat q.jobs (λ j. refl)

    go :
        (o : Option Job)
        → first? (has_id i) q.jobs ≡ o
        → first? (has_id i) (requeue_stale_running_jobs max_age now touched).1.jobs
          ≡ first? (has_id i) touched.jobs
    go none e = rw (before, after, e)
    go (some j) e = rw (before, after, e) (ground (arith, first?-passes (has_id i) q.jobs j e))
