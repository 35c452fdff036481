-- ===== src/Delivery/Retry/Select.antt =====
-- Which rows `select_retryable_failed_resources` hands over for a delivery, and how many.
use togo.Common.{
  ℕ, ◌+◌, ◌-◌, ◌≤◌, ◌≡◌, true, false, ◌&&◌, List, [], ◌∷◌, leb, or_else, seconds, All, arith, inl,
  inr, Bool-cases, count_where,
}
use togo.Delivery.{Resource, TextTables}
use togo.Delivery.Failure.{Kind, classify_delivery_failure}
use togo.Delivery.Retry.{
  Candidate, reason, is_retry_kind, backoff_seconds, stamp, retry_due, judged, acts,
  select_candidates, clamped, select_retryable_failed_resources, is_invalid, is_final,
}

-- What a candidate that is handed over for a delivery has.
abbrev pub IsDue : ℕ → Candidate → Type 0
IsDue now c =
    acts c ≡ true
    → (is_retry_kind c.failure_kind ≡ true)
      × (stamp c.resource + seconds (backoff_seconds c.failure_kind c.resource.retry_count) ≤ now)

acts-reason :
    (now : ℕ) (kind : Kind) (r : Resource)
    → acts (record { resource = r; failure_kind = kind; skip_reason = reason now kind r }) ≡ true
    → (is_invalid r.status kind ≡ false) × (retry_due now kind r ≡ true)
unfolding reason
acts-reason now kind r h = elim (Bool-cases (is_invalid r.status kind)) [
  | inl e ↦ cc (rw e at h)
  | inr e ↦ elim (Bool-cases (is_final r.status kind && leb 3 r.retry_count)) [
    | inl f ↦ cc (rw (e, f) at h)
    | inr f ↦ elim (Bool-cases (retry_due now kind r)) [
      | inl d ↦ (e, d)
      | inr d ↦ cc (rw (e, f, d) at h)
    ]
  ]
]

judged-IsDue : (t : TextTables) (now : ℕ) (r : Resource) → IsDue now (judged t now r)
unfolding judged retry_due
judged-IsDue t now r h =
    let kind = classify_delivery_failure t (or_else r.last_error "") in
    let d = acts-reason now kind r h in rw d.0 (ground (arith, d.1))

-- Each candidate that is handed over for a delivery has waited for the whole backoff of its class
-- since its row was last written, and has no message of the classes `invalid` and `final`: even a
-- `delivery_failed_final` row with fewer than 3 retries is not retried while its message is final.
pub select_retryable_failed_resources-IsDue :
    (t : TextTables) (now limit : ℕ) (subscriptions : List ℕ) (rows : List Resource)
    → All (IsDue now) (select_retryable_failed_resources t now limit subscriptions rows)
unfolding select_retryable_failed_resources
select_retryable_failed_resources-IsDue t now limit subscriptions rows = go _ (clamped limit 20 100)
  where
    go : (rs : List Resource) (left : ℕ) → All (IsDue now) (select_candidates t now left rs)
    go [] left = tt
    go (r ∷ rs) left = elim (Bool-cases (acts (judged t now r))) [
      | inr e ↦ rw e (judged-IsDue t now r, go rs left)
      | inl e ↦ elim (Bool-cases (leb left 1)) [
        | inl l ↦ rw (e, l) (judged-IsDue t now r, tt)
        | inr l ↦ rw (e, l) (judged-IsDue t now r, go rs (left - 1))
      ]
    ]

-- At most the limit is handed over for a delivery, where the limit is 20 for 0 and 100 at most.
pub count_where-select_retryable_failed_resources :
    (t : TextTables) (now limit : ℕ) (subscriptions : List ℕ) (rows : List Resource)
    → count_where acts (select_retryable_failed_resources t now limit subscriptions rows)
      ≤ clamped limit 20 100
unfolding select_retryable_failed_resources
count_where-select_retryable_failed_resources t now limit subscriptions rows =
    go _ (clamped limit 20 100) (omega arith)
  where
    go :
        (rs : List Resource) (left : ℕ)
        → 1 ≤ left
        → count_where acts (select_candidates t now left rs) ≤ left
    go [] left h = omega arith
    go (r ∷ rs) left h = elim (Bool-cases (acts (judged t now r))) [
      | inr e ↦ rw (e, e) (omega (arith, go rs left h))
      | inl e ↦ elim (Bool-cases (leb left 1)) [
        | inl l ↦ rw (e, l) (rw e (omega arith))
        | inr l ↦ rw (e, l) (rw e (omega (arith, go rs (left - 1) (ground arith))))
      ]
    ]
