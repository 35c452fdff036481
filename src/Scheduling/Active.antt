-- ===== src/Scheduling/Active.antt =====
-- How many jobs of a kind are queued or running after one was scheduled.
use togo.Common.{
  ℕ, ◌+◌, ◌≤◌, ◌≡◌, refl, sym, ◌∙◌, String, Bool, true, false, ◌&&◌, Option, none, some, List, [],
  ◌∷◌, reverse, arith, if◌then◌else◌, inl, inr, Bool-cases, first?, count_where, count_where-append,
  count_where-reverse, update_where, eq_iff, ==_refl,
}
use togo.Jobs.{
  Job, Queue, has_id, wanted, latest_job, mark_job_failed, create_job, new_job, failed_row,
}
use togo.Scheduling.{is_active, job_is_stale, reuse_or_replace, reuse_or_create_job}

module _ {ℓ} {A : Type ℓ} where
  count_both-le :
      (p q : A → Bool) (xs : List A) → count_where (λ x. p x && q x) xs ≤ count_where p xs
  count_both-le p q [] = omega arith
  count_both-le p q (x ∷ xs) = ground (arith, count_both-le p q xs)

  first?-counted :
      (p q r : A → Bool) (xs : List A) (a : A)
      → first? p xs ≡ some a
      → q a ≡ true
      → r a ≡ true
      → 1 ≤ count_where (λ x. (p x && q x) && r x) xs
  first?-counted p q r [] a h passes_q passes_r = cc
  first?-counted p q r (x ∷ xs) a h passes_q passes_r = elim (Bool-cases (p x)) [
    | inl e ↦ ground (arith, e, h, passes_q, passes_r)
    | inr e ↦ ground (arith, e, first?-counted p q r xs a)
  ]

  -- An UPDATE after which no row of those that it writes passes the test.
  count_where-update_where :
      (p h : A → Bool) (f : A → A) (xs : List A)
      → ((x : A) → p (f x) ≡ false)
      → count_where p (update_where h f xs) + count_where (λ x. p x && h x) xs ≡ count_where p xs
  count_where-update_where p h f [] out = refl
  count_where-update_where p h f (x ∷ xs) out =
      ground (arith, out x, count_where-update_where p h f xs out)

abbrev pub active : String → Option ℕ → Job → Bool
active kind target j = wanted kind target j && is_active j

abbrev pub active_count : String → Option ℕ → Queue → ℕ
active_count kind target q = count_where (active kind target) q.jobs

abbrev pub one_if_active : Option Job → ℕ
one_if_active none = 0
one_if_active (some j) = if is_active j then 1 else 0

-- Of the jobs of a kind, and for a target if there is one, none but the latest is queued or running.
abbrev pub OnlyLatest : String → Option ℕ → Queue → Type 0
OnlyLatest kind target q = active_count kind target q ≡ one_if_active (latest_job kind target q)

-- The job with the id is the one that is queued or running.
abbrev pub IsTheActive : String → Option ℕ → ℕ → Queue → Type 0
IsTheActive kind target i q =
    (active_count kind target q ≡ 1)
    × (count_where (λ j. active kind target j && has_id i j) q.jobs ≡ 1)

new_job-wanted :
    (i : ℕ) (kind : String) (target : Option ℕ) (payload : Option String) (now : ℕ)
    → wanted kind target (new_job i kind target payload now) ≡ true
new_job-wanted i kind none payload now = (eq_iff kind kind).1 refl
new_job-wanted i kind (some t) payload now = ground (arith, (eq_iff kind kind).1 refl, ==_refl t)

module _ (kind : String) (target : Option ℕ) (payload : Option String) (now : ℕ) where
  create_job-IsTheActive :
      (q : Queue)
      → active_count kind target q ≡ 0
      → let (i, q') = create_job kind target payload now q in IsTheActive kind target i q'
  unfolding create_job
  create_job-IsTheActive q nothing =
      let i = q.last_id + 1 in
      let row = new_job i kind target payload now in
      let mine = new_job-wanted i kind target payload now in
      let p = λ (j : Job). active kind target j && has_id i j in
      (
        ground (arith, count_where-append (active kind target) q.jobs (row ∷ []), mine, nothing),
        ground (
          arith,
          count_where-append p q.jobs (row ∷ []),
          mine,
          nothing,
          ==_refl i,
          count_both-le (active kind target) (has_id i) q.jobs,
        ),
      )

  latest-counted :
      (q : Queue) (j : Job)
      → latest_job kind target q ≡ some j
      → is_active j ≡ true
      → 1 ≤ count_where (λ x. active kind target x && has_id j.id x) q.jobs
  unfolding latest_job
  latest-counted q j latest busy =
      rw (sym (count_where-reverse (λ x. active kind target x && has_id j.id x) q.jobs)) (
        first?-counted (wanted kind target) is_active (has_id j.id) (reverse q.jobs) j latest busy
          (==_refl j.id))

  failed-inactive :
      (error : String) (t : ℕ) (j : Job) → active kind target (failed_row error none t j) ≡ false
  failed-inactive error t j = ground arith

  failed-nothing :
      (error : String) (q : Queue) (j : Job)
      → active_count kind target q ≡ 1
      → latest_job kind target q ≡ some j
      → is_active j ≡ true
      → active_count kind target (mark_job_failed j.id error none now q) ≡ 0
  unfolding mark_job_failed
  failed-nothing error q j only latest busy = omega (
    arith,
    latest-counted q j latest busy,
    only,
    count_where-update_where (active kind target) (has_id j.id) (failed_row error none now) q.jobs
        (failed-inactive error now),
  )

  scheduled-IsTheActive :
      (q : Queue) (latest : Option Job)
      → latest_job kind target q ≡ latest
      → active_count kind target q ≡ one_if_active latest
      → let (a, q') = reuse_or_replace kind target payload now q latest in
        IsTheActive kind target a.job_id q'
  scheduled-IsTheActive q none is only = create_job-IsTheActive q only
  scheduled-IsTheActive q (some j) is only = elim (Bool-cases (is_active j)) [
    | inr idle ↦ rw idle (create_job-IsTheActive q (only ∙ rw idle refl))
    | inl busy ↦ elim (Bool-cases (job_is_stale now j)) [
      | inl stale ↦
          rw (busy, stale)
            (create_job-IsTheActive
              (mark_job_failed j.id "stale job superseded by reschedule" none now q)
              (failed-nothing "stale job superseded by reschedule" q j (only ∙ rw busy refl) is
                busy))
      | inr fresh ↦
          rw (busy, fresh)
            (
              only ∙ rw busy refl,
              ground (
                arith,
                latest-counted q j is busy,
                only,
                count_both-le (active kind target) (has_id j.id) q.jobs,
              ),
            )
    ]
  ]

  -- Where none but the latest job of a kind, and for a target, is queued or running, exactly one is
  -- after a job was scheduled: the one whose id is answered, new or not.
  pub reuse_or_create_job-IsTheActive :
      (q : Queue)
      → OnlyLatest kind target q
      → let (a, q') = reuse_or_create_job kind target payload now q in
        IsTheActive kind target a.job_id q'
  unfolding reuse_or_create_job
  reuse_or_create_job-IsTheActive q only =
      scheduled-IsTheActive q (latest_job kind target q) refl only
