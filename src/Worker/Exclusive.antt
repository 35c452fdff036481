-- ===== src/Worker/Exclusive.antt =====
-- Which jobs run beside each other.
use togo.Common.{
  ℕ, ◌<◌, String, ◌≡◌, refl, true, false, Option, none, some, List, [], ◌∷◌, arith, ◌==◌, any,
  Bool-cases, inl, inr, str_eq, eq_iff,
}
use togo.Jobs.{Job, Queue, kind_in, claimable, claim_next_job, IsQueue}
use togo.Jobs.Drain.{Above, Next, claim_next_job-Next, IsQueue-Above}
use togo.Worker.{
  supported_kinds, non_tg_kinds, tg_kinds, Batch, alone, together, kind_of_tg, pair_up,
  with_sidecar, after_claim, pick_batch,
}

-- A batch of two: two jobs, neither of which searches Telegram.
abbrev pub IsExclusive : Option Batch → Type 0
IsExclusive none = Unit
IsExclusive (some (alone j)) = Unit
IsExclusive (some (together j k)) = (j.id < k.id) × (kind_of_tg j ≡ false) × (kind_of_tg k ≡ false)

non_tg-supported : (j : Job) → claimable non_tg_kinds j ≡ true → claimable supported_kinds j ≡ true
non_tg-supported j e = ground arith

Above-non_tg : (b : ℕ) (js : List Job) → Above supported_kinds b js → Above non_tg_kinds b js
Above-non_tg b [] h = tt
Above-non_tg b (j ∷ js) h = (λ p. h.0 (non_tg-supported j p), Above-non_tg b js h.1)

non_tg-kind :
    (kind : String) → kind_in non_tg_kinds kind ≡ true → any (str_eq kind) tg_kinds ≡ false
non_tg-kind kind e = elim (Bool-cases (str_eq kind "emby_subscription_sync")) [
  | inl p ↦ rw ((eq_iff kind "emby_subscription_sync").0 p) refl
  | inr p ↦ elim (Bool-cases (str_eq kind "retry_failed_resources")) [
    | inl q ↦ rw ((eq_iff kind "retry_failed_resources").0 q) refl
    | inr q ↦ cc (rw (p, q) at e)
  ]
]

pair_up-IsExclusive :
    (job : Job) (r : Option Job × Queue)
    → kind_of_tg job ≡ false
    → Next non_tg_kinds job.id r
    → IsExclusive (some (pair_up job r).0)
pair_up-IsExclusive job (none, q) e h = tt
pair_up-IsExclusive job (some extra, q) e h = elim (Bool-cases (extra.id == job.id)) [
  | inl same ↦ rw same tt
  | inr differ ↦ rw differ (h.0, e, non_tg-kind extra.kind h.3)
]

-- Jobs that run beside each other are two different ones, and neither searches Telegram.
pub pick_batch-IsExclusive :
    (instance_id : String) (now later : ℕ) (q : Queue)
    → IsQueue q
    → IsExclusive (pick_batch instance_id now later q).0
unfolding pick_batch with_sidecar
pick_batch-IsExclusive instance_id now later q h =
    go (claim_next_job supported_kinds (some instance_id) instance_id now q) (
      claim_next_job-Next supported_kinds (some instance_id) instance_id now 0 q h
        (IsQueue-Above supported_kinds q h))
  where
    go :
        (r : Option Job × Queue)
        → Next supported_kinds 0 r
        → IsExclusive (after_claim instance_id later r).0
    go (none, q') n = tt
    go (some job, q') n = elim (Bool-cases (kind_of_tg job)) [
      | inl e ↦ rw (e, with_sidecar) tt
      | inr e ↦
          rw (e, with_sidecar)
            (pair_up-IsExclusive job
              (claim_next_job non_tg_kinds (some instance_id) instance_id later q') e
              (claim_next_job-Next non_tg_kinds (some instance_id) instance_id later job.id q' n.1
                (Above-non_tg job.id q'.jobs n.2)))
    ]
