-- ===== src/Jobs/Drain.antt =====
-- Claims in a row: the oldest jobs first, none of them twice, until none is left.
use native.Mathlib.Nat.{le_refl}
use togo.Common.{
  ℕ, suc, ◌-◌, ◌≤◌, ◌<◌, min, String, ◌≡◌, refl, subst, true, false, Option, none, some, List, [],
  ◌∷◌, arith, inl, inr, Bool-cases, length, All, count_where, Ascending-le,
}
use togo.Jobs.{Job, Queue, kind_in, claimable, worker_name, claim_next_job, IsQueue}
use togo.Jobs.Keyed.{Rising}
use togo.Jobs.Claim.{claim_list, claim_outcome, claim_next_job-outcome, claim_next_job-IsQueue}

abbrev collect : Option Job × Queue → (Queue → List Job × Queue) → List Job × Queue
collect (none, q) rest = rest q
collect (some j, q) rest = let (jobs, q') = rest q in (j ∷ jobs, q')

-- A worker that claims once at each of the given times.
pub claim_at : List String → Option String → String → List ℕ → Queue → List Job × Queue
claim_at kinds worker instance_id [] q = ([], q)
claim_at kinds worker instance_id (now ∷ nows) q =
    collect (claim_next_job kinds worker instance_id now q) (claim_at kinds worker instance_id nows)

claimable-kind :
    (kinds : List String) (j : Job) → claimable kinds j ≡ true → kind_in kinds j.kind ≡ true
claimable-kind kinds j e = ground arith

module _ (kinds : List String) where
  -- The rows to claim have ids above `b`.
  abbrev pub Above : ℕ → List Job → Type 0
  Above b = All (λ j. claimable kinds j ≡ true → b < j.id)

  Rising-Above : (js : List Job) (lo lo' hi : ℕ) → lo ≤ lo' → Rising lo' js hi → Above lo js
  Rising-Above [] lo lo' hi le h = tt
  Rising-Above (j ∷ js) lo lo' hi le h =
      (λ _. omega arith, Rising-Above js lo j.id hi (omega arith) h.1)

  abbrev unclaimed : List Job → ℕ
  unclaimed = count_where (claimable kinds)

  -- Nothing to claim, or one row fewer to claim and the others above the row that was claimed.
  abbrev Taken : ℕ → ℕ → List Job → Option (Job × List Job) → Type 0
  Taken b hi js none = unclaimed js ≡ 0
  Taken b hi js (some (c, rest)) =
      (b < c.id)
      × (c.id ≤ hi)
      × (unclaimed js ≡ suc (unclaimed rest))
      × Above c.id rest
      × (kind_in kinds c.kind ≡ true)

  Taken-cons :
      (b hi : ℕ) (j : Job) (js : List Job) (o : Option (Job × List Job))
      → claimable kinds j ≡ false
      → Taken b hi js o
      → Taken b hi (j ∷ js) (elim o [ none ↦ none | some (c, rest) ↦ some (c, j ∷ rest) ])
  Taken-cons b hi j js none e h = rw (e, h)
  Taken-cons b hi j js (some (c, rest)) e h =
      (h.0, h.1, rw e (omega (arith, h.2)), (λ p. cc, h.3), h.4)

  module _ (worker : String) (now : ℕ) where
    claim_list-Taken :
        (js : List Job) (b lo hi : ℕ)
        → Rising lo js hi
        → Above b js
        → Taken b hi js (claim_list kinds worker now js)
    unfolding claim_list
    claim_list-Taken [] b lo hi h a = refl
    claim_list-Taken (j ∷ js) b lo hi h a = elim (Bool-cases (claimable kinds j)) [
      | inl e ↦
          rw (e, claim_list)
            (
              a.0 e,
              Ascending-le (λ r. r.id) js j.id hi h.1,
              rw e (omega arith),
              ((λ p. cc), Rising-Above js j.id j.id hi (le_refl _) h.1),
              claimable-kind kinds j e,
            )
      | inr e ↦
          rw (e, claim_list)
            (Taken-cons b hi j js (claim_list kinds worker now js) e
              (claim_list-Taken js b j.id hi h.1 a.1))
    ]

  module _ (worker : Option String) (instance_id : String) where
    abbrev claims : List ℕ → Queue → List Job × Queue
    claims = claim_at kinds worker instance_id

    -- The claimed ids rise; there are as many claims as times and jobs allow; the rest is left.
    pub record Drains (nows : List ℕ) (b : ℕ) (q : Queue) : Type 0 where
      pub in_order : Rising b (claims nows q).0 q.last_id
      pub taken : length (claims nows q).0 ≡ min (length nows) (unclaimed q.jobs)
      pub left : unclaimed (claims nows q).1.jobs ≡ unclaimed q.jobs - length nows

    -- One claim, then the claims of the times that follow.
    step :
        (now : ℕ) (nows : List ℕ) (b : ℕ) (q : Queue) (o : Option (Job × List Job))
        → claim_next_job kinds worker instance_id now q ≡ claim_outcome q o
        → Taken b q.last_id q.jobs o
        → ((b' : ℕ) (js : List Job)
            → b' ≤ q.last_id
            → Above b' js
            → (claim_outcome q o).1 ≡ record q { jobs = js }
            → Drains nows b' (record q { jobs = js }))
        → b ≤ q.last_id
        → Above b q.jobs
        → Drains (now ∷ nows) b q
    unfolding claim_at
    step now nows b q none e t ih le a =
        let rest = ih b q.jobs le a refl in
        record {
          in_order = rw (e, claim_at) rest.in_order;
          taken = rw (e, claim_at) (omega (arith, rest.taken, t));
          left = rw (e, claim_at) (omega (arith, rest.left, t));
        }
    step now nows b q (some (c, js)) e t ih le a =
        let rest = ih c.id js t.1 t.3 refl in
        record {
          in_order = rw (e, claim_at) (t.0, rest.in_order);
          taken = rw (e, claim_at) (omega (arith, rest.taken, t.2));
          left = rw (e, claim_at) (omega (arith, rest.left, t.2));
        }

    claims-Drains :
        (nows : List ℕ) (b : ℕ) (q : Queue)
        → IsQueue q
        → b ≤ q.last_id
        → Above b q.jobs
        → Drains nows b q
    unfolding claim_at
    claims-Drains [] b q h le a = record { in_order = le; taken = omega arith; left = omega arith }
    claims-Drains (now ∷ nows) b q h le a =
        let outcome =
          claim_next_job-outcome kinds (worker_name worker instance_id) now worker instance_id q
            refl h in
        let ordered = rw outcome at (claim_next_job-IsQueue kinds now worker instance_id q h) in
        step now nows b q (claim_list kinds (worker_name worker instance_id) now q.jobs) outcome
          (claim_list-Taken (worker_name worker instance_id) now q.jobs b 0 q.last_id h a)
          (λ b' js le' a' same.
            claims-Drains nows b' (record q { jobs = js }) (subst IsQueue same ordered) le' a')
          le a

-- What one claim says of the claims after it.
abbrev pub Next : List String → ℕ → Option Job × Queue → Type 0
Next kinds b (none, q) = Unit
Next kinds b (some c, q) =
    (b < c.id) × IsQueue q × Above kinds c.id q.jobs × (kind_in kinds c.kind ≡ true)

pub claim_next_job-Next :
    (kinds : List String) (worker : Option String) (instance_id : String) (now b : ℕ) (q : Queue)
    → IsQueue q
    → Above kinds b q.jobs
    → Next kinds b (claim_next_job kinds worker instance_id now q)
claim_next_job-Next kinds worker instance_id now b q h a =
    let name = worker_name worker instance_id in
    let outcome = claim_next_job-outcome kinds name now worker instance_id q refl h in
    rw outcome (
      go (claim_list kinds name now q.jobs)
        (rw outcome at (claim_next_job-IsQueue kinds now worker instance_id q h))
        (claim_list-Taken kinds name now q.jobs b 0 q.last_id h a))
  where
    go :
        (o : Option (Job × List Job))
        → IsQueue (claim_outcome q o).1
        → Taken kinds b q.last_id q.jobs o
        → Next kinds b (claim_outcome q o)
    go none ordered t = tt
    go (some (c, js)) ordered t = (t.0, ordered, t.3, t.4)

pub IsQueue-Above : (kinds : List String) (q : Queue) → IsQueue q → Above kinds 0 q.jobs
IsQueue-Above kinds q h = Rising-Above kinds q.jobs 0 0 q.last_id (le_refl _) h

-- A worker that claims again and again takes the jobs of its kinds in the order of their ids, none
-- twice, as many as there are times or jobs, and leaves the other jobs of its kinds to be claimed.
pub claim_at-Drains :
    (kinds : List String) (worker : Option String) (instance_id : String) (nows : List ℕ)
    (q : Queue)
    → IsQueue q
    → Drains kinds worker instance_id nows 0 q
claim_at-Drains kinds worker instance_id nows q h =
    claims-Drains kinds worker instance_id nows 0 q h
      (Ascending-le (λ r. r.id) q.jobs 0 q.last_id h) (IsQueue-Above kinds q h)
