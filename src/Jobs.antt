-- ===== src/Jobs.antt =====
-- app/services/jobs.py: the table `background_jobs` and the operations of the job queue.
-- A row of the table is a `Job`; the table is the list of its rows in the order of their ids, which
-- SQLite hands out rising (AUTOINCREMENT). A time is the number of microseconds that the written
-- timestamp stands for; `payload` and `result` are the JSON texts of their columns.
pub mod Keyed
pub mod Claim
pub mod Stale
pub mod Lifecycle
pub mod Drain
pub mod Stats
mod Examples
use togo.Common.{
  ℕ, ◌+◌, String, Bool, true, false, ◌&&◌, ◌||◌, Option, none, some, List, [], ◌∷◌, ◌++◌, reverse,
  ltb, ◌==◌, if◌then◌else◌, or_else, coalesce, min, max, str_eq, truncate, or_text, any, select,
  first?, length, take, update_where, count_where, Ascending,
}

pub data Status : Type 0 where
  queued running done failed : Status

pub record Job : Type 0 where
  pub id : ℕ
  pub kind : String
  pub target_id : Option ℕ
  pub status : Status
  pub payload : String
  pub result : Option String
  pub error : Option String
  pub created_at : ℕ
  pub started_at : Option ℕ
  pub heartbeat_at : Option ℕ
  pub worker_id : Option String
  pub finished_at : Option ℕ
  pub updated_at : ℕ

-- The table, and the last id that AUTOINCREMENT has handed out.
pub record Queue : Type 0 where
  pub jobs : List Job
  pub last_id : ℕ

abbrev pub empty : Queue
empty = record { jobs = []; last_id = 0 }

abbrev pub status_eq : Status → Status → Bool
status_eq queued queued = true
status_eq running running = true
status_eq done done = true
status_eq failed failed = true
status_eq _ _ = false

abbrev pub has_status : Status → Job → Bool
has_status s j = status_eq j.status s

abbrev pub has_id : ℕ → Job → Bool
has_id i j = j.id == i

-- The row that `create_job` inserts.
abbrev pub new_job : ℕ → String → Option ℕ → Option String → ℕ → Job
new_job i kind target payload now = record {
  id = i;
  kind = kind;
  target_id = target;
  status = queued;
  payload = or_else payload "{}";
  result = none;
  error = none;
  created_at = now;
  started_at = none;
  heartbeat_at = none;
  worker_id = none;
  finished_at = none;
  updated_at = now;
}

unfoldable pub create_job : String → Option ℕ → Option String → ℕ → Queue → ℕ × Queue
create_job kind target payload now q =
    let i = q.last_id + 1 in
    (i, record { jobs = q.jobs ++ new_job i kind target payload now ∷ []; last_id = i })

abbrev pub on_rows : (Job → Bool) → (Job → Job) → Queue → Queue
on_rows p f q = record q { jobs = update_where p f q.jobs }

abbrev pub running_row : ℕ → Job → Job
running_row now j = record j {
  status = running;
  started_at = coalesce j.started_at (some now);
  updated_at = now;
}

abbrev pub done_row : Option String → ℕ → Job → Job
done_row result now j = record j {
  status = done;
  result = some (or_else result "{}");
  error = none;
  finished_at = some now;
  updated_at = now;
}

abbrev pub failed_row : String → Option String → ℕ → Job → Job
failed_row error result now j = record j {
  status = failed;
  result = some (or_else result "{}");
  error = some (truncate 1000 error);
  finished_at = some now;
  updated_at = now;
}

abbrev pub beat_row : String → ℕ → Job → Job
beat_row worker now j = record j {
  heartbeat_at = some now;
  worker_id = some worker;
  updated_at = now;
}

unfoldable pub mark_job_running : ℕ → ℕ → Queue → Queue
mark_job_running i now = on_rows (has_id i) (running_row now)

unfoldable pub mark_job_done : ℕ → Option String → ℕ → Queue → Queue
mark_job_done i result now = on_rows (has_id i) (done_row result now)

unfoldable pub mark_job_failed : ℕ → String → Option String → ℕ → Queue → Queue
mark_job_failed i error result now = on_rows (has_id i) (failed_row error result now)

-- `instance_id` is the text of `worker_instance_id()`, which the environment decides.
abbrev pub worker_name : Option String → String → String
worker_name worker instance_id = truncate 120 (or_text (or_else worker "") instance_id)

abbrev pub is_running_with_id : ℕ → Job → Bool
is_running_with_id i j = has_id i j && has_status running j

unfoldable pub touch_job_heartbeat : ℕ → Option String → String → ℕ → Queue → Queue
touch_job_heartbeat i worker instance_id now =
    on_rows (is_running_with_id i) (beat_row (worker_name worker instance_id) now)

-- `kind IN (…)`; an empty list of kinds asks for any kind.
abbrev pub kind_in : List String → String → Bool
kind_in [] kind = true
kind_in (k ∷ ks) kind = any (str_eq kind) (k ∷ ks)

abbrev pub claimable : List String → Job → Bool
claimable kinds j = has_status queued j && kind_in kinds j.kind

-- The columns that a claim writes.
abbrev pub claimed : String → ℕ → Job → Job
claimed worker now j = record j {
  status = running;
  started_at = coalesce j.started_at (some now);
  heartbeat_at = some now;
  worker_id = some worker;
  updated_at = now;
}

-- The UPDATE of a claim, and its row count. The transaction is one step: BEGIN IMMEDIATE.
abbrev take_row : String → ℕ → Queue → Job → Option Job × Queue
take_row worker now q j =
    let p = λ (r : Job). has_id j.id r && has_status queued r in
    let q' = on_rows p (claimed worker now) q in
    (if count_where p q.jobs == 1 then some (claimed worker now j) else none, q')

unfoldable pub claim_next_job :
    List String → Option String → String → ℕ → Queue → Option Job × Queue
claim_next_job kinds worker instance_id now q = elim (first? (claimable kinds) q.jobs) [
  | none ↦ (none, q)
  | some j ↦ take_row (worker_name worker instance_id) now q j
]

-- The last sign of life of a running job.
abbrev pub stamp : Job → ℕ
stamp j = or_else (coalesce j.heartbeat_at j.started_at) j.updated_at

-- `age < max_age_seconds`, with the age that `now` gives.
abbrev pub is_fresh : ℕ → ℕ → Job → Bool
is_fresh max_age now j = ltb now (stamp j + max_age)

abbrev pub requeued : ℕ → Job → Job
requeued now j = record j {
  status = queued;
  started_at = none;
  heartbeat_at = none;
  worker_id = none;
  error = coalesce j.error (some "stale running job requeued (heartbeat timeout)");
  updated_at = now;
}

-- The loop over the rows that the SELECT returned.
unfoldable pub requeue_rows : ℕ → ℕ → List Job → List Job → ℕ → List Job × ℕ
requeue_rows max_age now [] jobs count = (jobs, count)
requeue_rows max_age now (r ∷ rows) jobs count =
    requeue_rows max_age now rows
      (if is_fresh max_age now r
        then jobs
        else update_where (λ j. has_id r.id j && has_status running j) (requeued now) jobs)
      (if is_fresh max_age now r then count else count + 1)

unfoldable pub requeue_stale_running_jobs : ℕ → ℕ → Queue → ℕ × Queue
unfolding requeue_rows
requeue_stale_running_jobs max_age now q =
    let (jobs, count) = requeue_rows max_age now (select (has_status running) q.jobs) q.jobs 0 in
    (count, record q { jobs = jobs })

-- `latest_job`: the row with the highest id.
abbrev pub wanted : String → Option ℕ → Job → Bool
wanted kind none j = str_eq j.kind kind
wanted kind (some t) j = str_eq j.kind kind && elim j.target_id [ none ↦ false | some u ↦ u == t ]

unfoldable pub latest_job : String → Option ℕ → Queue → Option Job
latest_job kind target q = first? (wanted kind target) (reverse q.jobs)

-- `max(1, min(int(limit or 50), 200))`
abbrev pub list_limit : ℕ → ℕ
list_limit limit = max 1 (min (if limit == 0 then 50 else limit) 200)

unfoldable pub list_jobs : ℕ → Option Status → Queue → List Job
list_jobs limit none q = take (list_limit limit) (reverse q.jobs)
list_jobs limit (some s) q = take (list_limit limit) (select (has_status s) (reverse q.jobs))

-- The distinct non-empty `worker_id`s of the rows.
abbrev pub new_worker : List String → Option String → List String
new_worker seen none = seen
new_worker seen (some w) = if str_eq w "" || any (str_eq w) seen then seen else w ∷ seen

abbrev pub workers : List Job → List String → List String
workers [] seen = seen
workers (j ∷ js) seen = workers js (new_worker seen j.worker_id)

abbrev pub oldest : List Job → Option ℕ
oldest [] = none
oldest (j ∷ js) = some (elim (oldest js) [ none ↦ stamp j | some t ↦ min (stamp j) t ])

pub record QueueCounts : Type 0 where
  pub queued_jobs : ℕ
  pub running_jobs : ℕ
  pub done_jobs : ℕ
  pub failed_jobs : ℕ
  pub total : ℕ
  pub running_workers : ℕ
  pub oldest_running_heartbeat_at : Option ℕ

-- The counts of `job_queue_stats`.
unfoldable pub job_queue_stats : Queue → QueueCounts
job_queue_stats q =
    let n = λ (s : Status). count_where (has_status s) q.jobs in
    record {
      queued_jobs = n queued;
      running_jobs = n running;
      done_jobs = n done;
      failed_jobs = n failed;
      total = n queued + n running + n done + n failed;
      running_workers = length (workers (select (has_status running) q.jobs) []);
      oldest_running_heartbeat_at = oldest (select (has_status running) q.jobs);
    }

-- What holds of the table between two operations: rising ids, none past the last one handed out.
abbrev pub IsQueue : Queue → Type 0
IsQueue q = Ascending (λ j. j.id) 0 q.jobs q.last_id
