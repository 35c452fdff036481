-- ===== src/Jobs/Claim.antt =====
-- What `claim_next_job` takes.
use native.Mathlib.Nat.{le_refl}
use togo.Common.{
  ℕ, ◌<◌, String, ◌≡◌, refl, Bool, true, false, ◌&&◌, Option, none, some, List, [], ◌∷◌, arith,
  ==_refl, if◌then◌else◌, inl, inr, Bool-cases, first?, update_where, count_where,
  Ascending-update_where, All, All-update_where,
}
use togo.Jobs.{
  Job, Queue, queued, has_id, has_status, claimable, claimed, worker_name, claim_next_job, IsQueue,
}
use togo.Jobs.Keyed.{Rising, update_past, count_past}

-- One pass over the table: the first row that may be claimed is handed out and written.
unfoldable pub claim_list : List String → String → ℕ → List Job → Option (Job × List Job)
claim_list kinds worker now [] = none
claim_list kinds worker now (j ∷ js) =
    if claimable kinds j
    then some (claimed worker now j, claimed worker now j ∷ js)
    else elim (claim_list kinds worker now js) [ none ↦ none | some (c, rest) ↦ some (c, j ∷ rest) ]

abbrev pub claim_outcome : Queue → Option (Job × List Job) → Option Job × Queue
claim_outcome q none = (none, q)
claim_outcome q (some (c, js)) = (some c, record q { jobs = js })

abbrev hit : ℕ → Job → Bool
hit i j = has_id i j && has_status queued j

hit_self : (kinds : List String) (j : Job) → claimable kinds j ≡ true → hit j.id j ≡ true
hit_self kinds j e = ground (arith, ==_refl j.id)

hit_other : (j : Job) (i : ℕ) → j.id < i → hit i j ≡ false
hit_other j i lt = ground arith

module _ (kinds : List String) (worker : String) (now : ℕ) where
  -- What the SELECT finds, the UPDATE by its id writes, and that row alone.
  abbrev Agrees : ℕ → List Job → Option Job → Type 0
  Agrees lo js none = claim_list kinds worker now js ≡ none
  Agrees lo js (some j) =
      (lo < j.id)
      × (count_where (hit j.id) js ≡ 1)
      × (claim_list kinds worker now js
          ≡ some (claimed worker now j, update_where (hit j.id) (claimed worker now) js))

  Agrees-cons :
      (j : Job) (js : List Job) (lo : ℕ) (o : Option Job)
      → lo < j.id
      → claimable kinds j ≡ false
      → Agrees j.id js o
      → Agrees lo (j ∷ js) o
  unfolding claim_list
  Agrees-cons j js lo none lt e h = rw (e, h)
  Agrees-cons j js lo (some c) lt e h =
      let (above, once, found) = h in
      let miss = hit_other j c.id above in (omega arith, rw (miss, once), rw (e, found, miss))

  claim-Agrees :
      (js : List Job) (lo hi : ℕ) → Rising lo js hi → Agrees lo js (first? (claimable kinds) js)
  unfolding claim_list
  claim-Agrees [] lo hi h = refl
  claim-Agrees (j ∷ js) lo hi h = elim (Bool-cases (claimable kinds j)) [
    | inl e ↦ rw e (
      h.0,
      rw (
        hit_self kinds j e,
        count_past (has_status queued) (claimed worker now) j.id js j.id hi (le_refl _) h.1,
      ),
      rw (
        hit_self kinds j e,
        e,
        update_past (has_status queued) (claimed worker now) j.id js j.id hi (le_refl _) h.1,
      ),
    )
    | inr e ↦
        rw e (Agrees-cons j js lo (first? (claimable kinds) js) h.0 e (claim-Agrees js j.id hi h.1))
  ]

  pub claim_next_job-outcome :
      (given : Option String) (instance_id : String) (q : Queue)
      → worker_name given instance_id ≡ worker
      → IsQueue q
      → claim_next_job kinds given instance_id now q
        ≡ claim_outcome q (claim_list kinds worker now q.jobs)
  unfolding claim_next_job
  claim_next_job-outcome given instance_id q named h =
      go (first? (claimable kinds) q.jobs) refl (claim-Agrees q.jobs 0 q.last_id h)
    where
      go :
          (o : Option Job)
          → first? (claimable kinds) q.jobs ≡ o
          → Agrees 0 q.jobs o
          → claim_next_job kinds given instance_id now q
            ≡ claim_outcome q (claim_list kinds worker now q.jobs)
      go none e a = rw (e, claim_next_job, a)
      go (some j) e a = rw (e, claim_next_job, named, a.1, a.2)

pub claim_next_job-IsQueue :
    (kinds : List String) (now : ℕ) (given : Option String) (instance_id : String) (q : Queue)
    → IsQueue q
    → IsQueue (claim_next_job kinds given instance_id now q).1
unfolding claim_next_job
claim_next_job-IsQueue kinds now given instance_id q h = go (first? (claimable kinds) q.jobs) refl
  where
    go :
        (o : Option Job)
        → first? (claimable kinds) q.jobs ≡ o
        → IsQueue (claim_next_job kinds given instance_id now q).1
    go none e = rw (e, claim_next_job) h
    go (some j) e =
        rw (e, claim_next_job)
          (Ascending-update_where (λ r. r.id) (hit j.id)
            (claimed (worker_name given instance_id) now) q.jobs 0 q.last_id (λ r. refl) h)

-- Every written row is a claimed one.
pub claim_next_job-All :
    (P : Job → Type 0) (kinds : List String) (now : ℕ) (given : Option String)
    (instance_id : String) (q : Queue)
    → ((j : Job) → P (claimed (worker_name given instance_id) now j))
    → All P q.jobs
    → All P (claim_next_job kinds given instance_id now q).1.jobs
unfolding claim_next_job
claim_next_job-All P kinds now given instance_id q good h =
    go (first? (claimable kinds) q.jobs) refl
  where
    go :
        (o : Option Job)
        → first? (claimable kinds) q.jobs ≡ o
        → All P (claim_next_job kinds given instance_id now q).1.jobs
    go none e = rw (e, claim_next_job) h
    go (some j) e =
        rw (e, claim_next_job)
          (All-update_where P (hit j.id) (claimed (worker_name given instance_id) now) q.jobs
            (λ r _ _. good r) h)
