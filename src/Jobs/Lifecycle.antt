-- ===== src/Jobs/Lifecycle.antt =====
-- What holds of every row, whatever operations the workers and the API call, in whatever order.
use togo.Common.{
  ℕ, ◌+◌, String, ◌≡◌, refl, Bool, true, ◌&&◌, Option, none, some, List, [], ◌∷◌, arith, is_some,
  All, All-append, All-update_where, coalesce, Ascending-append, Ascending-update_where,
}
use togo.Jobs.{
  Job, Queue, Status, queued, running, done, failed, empty, has_id, has_status, new_job,
  running_row, done_row, failed_row, beat_row, is_running_with_id, on_rows, create_job,
  mark_job_running, mark_job_done, mark_job_failed, touch_job_heartbeat, worker_name,
  claim_next_job, requeued, requeue_stale_running_jobs, IsQueue,
}
use togo.Jobs.Claim.{claim_next_job-IsQueue, claim_next_job-All}
use togo.Jobs.Stale.{is_stale, requeue_stale_running_jobs-eq}

-- The calls that write the table, with their arguments and the time at which they run.
pub data Call : Type 0 where
  create : String → Option ℕ → Option String → Call
  start : ℕ → Call
  finish : ℕ → Option String → Call
  fail : ℕ → String → Option String → Call
  heartbeat : ℕ → Option String → String → Call
  claim : List String → Option String → String → Call
  requeue : ℕ → Call

unfoldable pub apply : ℕ → Call → Queue → Queue
apply now (create kind target payload) q = (create_job kind target payload now q).1
apply now (start i) q = mark_job_running i now q
apply now (finish i result) q = mark_job_done i result now q
apply now (fail i error result) q = mark_job_failed i error result now q
apply now (heartbeat i worker instance_id) q = touch_job_heartbeat i worker instance_id now q
apply now (claim kinds worker instance_id) q = (claim_next_job kinds worker instance_id now q).1
apply now (requeue max_age) q = (requeue_stale_running_jobs max_age now q).1

-- A queued row belongs to no worker; a running one has started; a finished one says when it ended.
abbrev pub Columns : Status → Job → Type 0
Columns queued j = (j.worker_id ≡ none) × (j.heartbeat_at ≡ none) × (j.started_at ≡ none)
Columns running j = is_some j.started_at ≡ true
Columns done j = (is_some j.finished_at ≡ true) × (is_some j.result ≡ true) × (j.error ≡ none)
Columns failed j = (is_some j.finished_at ≡ true) × (is_some j.error ≡ true)

abbrev pub IsRow : Job → Type 0
IsRow j = Columns j.status j

abbrev pub IsSound : Queue → Type 0
IsSound q = IsQueue q × All IsRow q.jobs

on_rows-IsSound :
    (p : Job → Bool) (f : Job → Job) (q : Queue)
    → ((j : Job) → (f j).id ≡ j.id)
    → ((j : Job) → p j ≡ true → IsRow j → IsRow (f j))
    → IsSound q
    → IsSound (on_rows p f q)
on_rows-IsSound p f q same keep h = (
  Ascending-update_where (λ j. j.id) p f q.jobs 0 q.last_id same h.0,
  All-update_where IsRow p f q.jobs keep h.1,
)

started : (j : Job) (now : ℕ) → is_some (coalesce j.started_at (some now)) ≡ true
started j now = ground arith

-- A heartbeat reaches running rows alone.
beat_keeps :
    (i : ℕ) (j : Job) (worker : String) (now : ℕ)
    → (has_id i j && has_status running j) ≡ true
    → IsRow j
    → IsRow (record j { heartbeat_at = some now; worker_id = some worker; updated_at = now })
beat_keeps i j worker now p r = ground arith

requeue-IsSound :
    (max_age now : ℕ) (q : Queue) → IsSound q → IsSound (requeue_stale_running_jobs max_age now q).1
requeue-IsSound max_age now q h = rw (requeue_stale_running_jobs-eq max_age now q h.0) (
    on_rows-IsSound (is_stale max_age now) (requeued now) q (λ j. refl)
      (λ j _ _. (refl, refl, refl)) h)

apply-IsSound : (now : ℕ) (c : Call) (q : Queue) → IsSound q → IsSound (apply now c q)
unfolding apply create_job mark_job_running mark_job_done mark_job_failed touch_job_heartbeat
apply-IsSound now (create kind target payload) q h = (
  Ascending-append (λ j. j.id) q.jobs (new_job (q.last_id + 1) kind target payload now) 0 q.last_id
      (omega arith) h.0,
  All-append IsRow q.jobs _ h.1 ((refl, refl, refl), tt),
)
apply-IsSound now (start i) q h =
    on_rows-IsSound (has_id i) (running_row now) q (λ j. refl) (λ j _ _. started j now) h
apply-IsSound now (finish i result) q h =
    on_rows-IsSound (has_id i) (done_row result now) q (λ j. refl) (λ j _ _. (refl, refl, refl)) h
apply-IsSound now (fail i error result) q h =
    on_rows-IsSound (has_id i) (failed_row error result now) q (λ j. refl) (λ j _ _. (refl, refl)) h
apply-IsSound now (heartbeat i worker instance_id) q h =
    on_rows-IsSound (is_running_with_id i) (beat_row (worker_name worker instance_id) now) q
      (λ j. refl) (λ j p r. beat_keeps i j (worker_name worker instance_id) now p r) h
apply-IsSound now (claim kinds worker instance_id) q h = (
  claim_next_job-IsQueue kinds now worker instance_id q h.0,
  claim_next_job-All IsRow kinds now worker instance_id q (λ j. started j now) h.1,
)
apply-IsSound now (requeue max_age) q h = requeue-IsSound max_age now q h

unfoldable pub run : List (ℕ × Call) → Queue → Queue
run [] q = q
run ((now, c) ∷ calls) q = run calls (apply now c q)

run-IsSound : (calls : List (ℕ × Call)) (q : Queue) → IsSound q → IsSound (run calls q)
unfolding run
run-IsSound [] q h = h
run-IsSound ((now, c) ∷ calls) q h = run-IsSound calls (apply now c q) (apply-IsSound now c q h)

-- After any calls at any times on an empty table, the ids rise and every row has the columns that
-- its status wants: no worker, heartbeat or start on a queued row, a start on a running one, an end
-- on a done or failed one, with a result and no error if it is done and an error if it failed.
pub run-empty-IsSound : (calls : List (ℕ × Call)) → IsSound (run calls empty)
run-empty-IsSound calls = run-IsSound calls empty (omega arith, tt)
