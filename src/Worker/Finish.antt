-- ===== src/Worker/Finish.antt =====
-- What the execution of the jobs of a batch leaves in the table.
use mathlib.Core.Option
use togo.Common.{
  ℕ, String, ◌≡◌, refl, Bool, true, false, ◌||◌, Option, none, some, List, [], ◌∷◌, arith, ◌==◌,
  ==_iff, ==_refl, if◌then◌else◌, any, All, first?, first?-passes, is_some, Bool-cases, inl, inr,
}
use togo.Jobs.{
  Job, Queue, done, failed, has_id, has_status, on_rows, mark_job_done, mark_job_failed,
  touch_job_heartbeat, done_row, failed_row, beat_row, is_running_with_id, worker_name,
}
use togo.Jobs.Keyed.{first?-update_where}
use togo.Jobs.Lifecycle.{Call, create, start, finish, fail, heartbeat, claim, requeue, apply, run}
use togo.Worker.{Outcome, dictionary, other, raised, end_call, execute}

abbrev pub Calls : Type 0
Calls = List (ℕ × Call)

-- The calls of two executions, each in its own order.
pub data Interleave : Calls → Calls → Calls → Type 0 where
  nothing : Interleave [] [] []
  left : {xs ys zs : Calls} (c : ℕ × Call) → Interleave xs ys zs → Interleave (c ∷ xs) ys (c ∷ zs)
  right : {xs ys zs : Calls} (c : ℕ × Call) → Interleave xs ys zs → Interleave xs (c ∷ ys) (c ∷ zs)

-- The row of a job is one that has ended.
abbrev pub is_over : Option Job → Bool
is_over none = false
is_over (some j) = has_status done j || has_status failed j

abbrev row : ℕ → Queue → Option Job
row i q = first? (has_id i) q.jobs

-- The calls that an execution makes.
abbrev IsExecution : Call → Type 0
IsExecution (finish i r) = Unit
IsExecution (fail i e r) = Unit
IsExecution (heartbeat i w n) = Unit
IsExecution _ = ⊥

abbrev ends_job : ℕ → Call → Bool
ends_job i (finish k r) = k == i
ends_job i (fail k e r) = k == i
ends_job i _ = false

abbrev over : Job → Bool
over j = has_status done j || has_status failed j

map-over :
    (g : Job → Job) (o : Option Job)
    → ((j : Job) → over j ≡ true → over (g j) ≡ true)
    → is_over o ≡ true
    → is_over (Option.map g o) ≡ true
map-over g none keep h = cc
map-over g (some j) keep h = keep j h

map-is_some : (g : Job → Job) (o : Option Job) → is_some o ≡ true → is_some (Option.map g o) ≡ true
map-is_some g none h = cc
map-is_some g (some j) h = refl

-- An UPDATE of the row by its id that makes it over.
map-ends :
    (i : ℕ) (f : Job → Job) (o : Option Job)
    → ((j : Job) → over (f j) ≡ true)
    → ((j : Job) → o ≡ some j → has_id i j ≡ true)
    → is_some o ≡ true
    → is_over (Option.map (λ j. if has_id i j then f j else j) o) ≡ true
map-ends i f none ends found h = cc
map-ends i f (some j) ends found h = rw (found j refl, ends j)

module _ (i : ℕ) (p : Job → Bool) (f : Job → Job) (q : Queue)
    (same : (j : Job) → (f j).id ≡ j.id) where
  row-on_rows : row i (on_rows p f q) ≡ Option.map (λ j. if p j then f j else j) (row i q)
  row-on_rows = first?-update_where i p f q.jobs same

  on_rows-present : is_some (row i q) ≡ true → is_some (row i (on_rows p f q)) ≡ true
  on_rows-present h = rw row-on_rows (map-is_some _ (row i q) h)

  on_rows-over :
      ((j : Job) → over j ≡ true → over (if p j then f j else j) ≡ true)
      → is_over (row i q) ≡ true
      → is_over (row i (on_rows p f q)) ≡ true
  on_rows-over keep h = rw row-on_rows (map-over _ (row i q) keep h)

on_rows-ends :
    (i : ℕ) (f : Job → Job) (q : Queue)
    → ((j : Job) → (f j).id ≡ j.id)
    → ((j : Job) → over (f j) ≡ true)
    → is_some (row i q) ≡ true
    → is_over (row i (on_rows (has_id i) f q)) ≡ true
on_rows-ends i f q same ends h =
    rw (row-on_rows i (has_id i) f q same)
      (map-ends i f (row i q) ends (first?-passes (has_id i) q.jobs) h)

module _ (i now : ℕ) (q : Queue) where
  apply_present :
      (c : Call) → IsExecution c → is_some (row i q) ≡ true → is_some (row i (apply now c q)) ≡ true
  unfolding apply mark_job_done mark_job_failed touch_job_heartbeat
  apply_present (finish k r) e h = on_rows-present i (has_id k) (done_row r now) q (λ j. refl) h
  apply_present (fail k m r) e h = on_rows-present i (has_id k) (failed_row m r now) q (λ j. refl) h
  apply_present (heartbeat k w n) e h =
      on_rows-present i (is_running_with_id k) (beat_row (worker_name w n) now) q (λ j. refl) h
  apply_present (create a b c) e h = elim e [ ]
  apply_present (start k) e h = elim e [ ]
  apply_present (claim a b c) e h = elim e [ ]
  apply_present (requeue k) e h = elim e [ ]

  apply_keeps :
      (c : Call) → IsExecution c → is_over (row i q) ≡ true → is_over (row i (apply now c q)) ≡ true
  unfolding apply mark_job_done mark_job_failed touch_job_heartbeat
  apply_keeps (finish k r) e h =
      on_rows-over i (has_id k) (done_row r now) q (λ j. refl) (λ j o. ground arith) h
  apply_keeps (fail k m r) e h =
      on_rows-over i (has_id k) (failed_row m r now) q (λ j. refl) (λ j o. ground arith) h
  apply_keeps (heartbeat k w n) e h =
      on_rows-over i (is_running_with_id k) (beat_row (worker_name w n) now) q (λ j. refl)
        (λ j o. ground arith) h
  apply_keeps (create a b c) e h = elim e [ ]
  apply_keeps (start k) e h = elim e [ ]
  apply_keeps (claim a b c) e h = elim e [ ]
  apply_keeps (requeue k) e h = elim e [ ]

  apply_ends :
      (c : Call)
      → ends_job i c ≡ true
      → is_some (row i q) ≡ true
      → is_over (row i (apply now c q)) ≡ true
  unfolding apply mark_job_done mark_job_failed
  apply_ends (finish k r) e h =
      rw ((==_iff k i).0 e) (on_rows-ends i (done_row r now) q (λ j. refl) (λ j. refl) h)
  apply_ends (fail k m r) e h =
      rw ((==_iff k i).0 e) (on_rows-ends i (failed_row m r now) q (λ j. refl) (λ j. refl) h)
  apply_ends (create a b c) e h = cc
  apply_ends (start k) e h = cc
  apply_ends (heartbeat k w n) e h = cc
  apply_ends (claim a b c) e h = cc
  apply_ends (requeue k) e h = cc

or_right : (a b : Bool) → b ≡ true → (a || b) ≡ true
or_right true b h = refl
or_right false b h = h

abbrev Execution : Calls → Type 0
Execution = All (λ c. IsExecution c.1)

abbrev any_ends : ℕ → Calls → Bool
any_ends i = any (λ c. ends_job i c.1)

run_keeps :
    (i : ℕ) (zs : Calls) (q : Queue)
    → Execution zs
    → is_over (row i q) ≡ true
    → is_over (row i (run zs q)) ≡ true
unfolding run
run_keeps i [] q x h = h
run_keeps i ((now, c) ∷ zs) q x h = run_keeps i zs (apply now c q) x.1 (apply_keeps i now q c x.0 h)

run_ends :
    (i : ℕ) (zs : Calls) (q : Queue)
    → Execution zs
    → any_ends i zs ≡ true
    → is_some (row i q) ≡ true
    → is_over (row i (run zs q)) ≡ true
unfolding run
run_ends i [] q x e h = cc
run_ends i ((now, c) ∷ zs) q x e h = elim (Bool-cases (ends_job i c)) [
  | inl p ↦ run_keeps i zs (apply now c q) x.1 (apply_ends i now q c p h)
  | inr p ↦ run_ends i zs (apply now c q) x.1 (rw p at e) (apply_present i now q c x.0 h)
]

Interleave-Execution :
    {xs ys zs : Calls} → Interleave xs ys zs → Execution xs → Execution ys → Execution zs
Interleave-Execution nothing hx hy = tt
Interleave-Execution (left c r) hx hy = (hx.0, Interleave-Execution r hx.1 hy)
Interleave-Execution (right c r) hx hy = (hy.0, Interleave-Execution r hx hy.1)

Interleave-ends :
    (i : ℕ) {xs ys zs : Calls}
    → Interleave xs ys zs
    → (any_ends i xs || any_ends i ys) ≡ true
    → any_ends i zs ≡ true
Interleave-ends i nothing h = h
Interleave-ends i (left c r) h = elim (Bool-cases (ends_job i c.1)) [
  | inl e ↦ rw e
  | inr e ↦ rw e (Interleave-ends i r (rw e at h))
]
Interleave-ends i (right {xs} {ys} c r) h = elim (Bool-cases (ends_job i c.1)) [
  | inl e ↦ rw e
  | inr e ↦ rw e (Interleave-ends i r (rw e at h))
]

end_call-IsExecution : (i : ℕ) (o : Outcome) → IsExecution (end_call i o)
end_call-IsExecution i (dictionary text) = tt
end_call-IsExecution i other = tt
end_call-IsExecution i (raised error) = tt

ends_job-end_call : (i : ℕ) (o : Outcome) → ends_job i (end_call i o) ≡ true
ends_job-end_call i (dictionary text) = ==_refl i
ends_job-end_call i other = ==_refl i
ends_job-end_call i (raised error) = ==_refl i

module _ (instance_id : String) (ends : ℕ) (outcome : Outcome) (job : Job) where
  execute-Execution : (beats : List ℕ) → Execution (execute instance_id beats ends outcome job)
  unfolding execute
  execute-Execution [] = (end_call-IsExecution job.id outcome, tt)
  execute-Execution (t ∷ beats) = (tt, execute-Execution beats)

  execute-ends :
      (beats : List ℕ) → any_ends job.id (execute instance_id beats ends outcome job) ≡ true
  unfolding execute
  execute-ends [] = rw (ends_job-end_call job.id outcome)
  execute-ends (t ∷ beats) = execute-ends beats

-- Two jobs of the table that a worker executes beside each other are both done or failed in the
-- end: for any interleaving of their heartbeats and ends, whatever their outcomes.
pub execute_together-over :
    (instance_id : String) (j k : Job) (beats beats' : List ℕ) (ends ends' : ℕ)
    (outcome outcome' : Outcome) {calls : Calls} (q : Queue)
    → Interleave
        (execute instance_id beats ends outcome j)
        (execute instance_id beats' ends' outcome' k)
        calls
    → is_some (first? (has_id j.id) q.jobs) ≡ true
    → is_some (first? (has_id k.id) q.jobs) ≡ true
    → (is_over (first? (has_id j.id) (run calls q).jobs) ≡ true)
      × (is_over (first? (has_id k.id) (run calls q).jobs) ≡ true)
execute_together-over instance_id j k beats beats' ends ends' outcome outcome' {calls} q r hj hk =
    let all_calls =
      Interleave-Execution r (execute-Execution instance_id ends outcome j beats)
        (execute-Execution instance_id ends' outcome' k beats') in
    (
      run_ends j.id calls q all_calls
          (Interleave-ends j.id r (rw (execute-ends instance_id ends outcome j beats))) hj,
      run_ends k.id calls q all_calls
          (Interleave-ends k.id r (or_right _ _ (execute-ends instance_id ends' outcome' k beats')))
          hk,
    )
