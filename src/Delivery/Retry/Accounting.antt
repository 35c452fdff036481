-- ===== src/Delivery/Retry/Accounting.antt =====
-- What `retry_failed_resources` reports, and how its backoff grows.
use togo.Common.{
  ℕ, zero, suc, ◌+◌, ◌≤◌, ◌≡◌, refl, Bool, true, false, ◌&&◌, leb, List, [], ◌∷◌, length, arith,
  inl, inr, Bool-cases, count_where,
}
use togo.Delivery.{Resource, TextTables}
use togo.Delivery.Failure.{Kind, auth, flood, invalid, timeout, network, rate, temporary, final}
use togo.Delivery.Retry.{
  Candidate, Counts, acts, of_kind, seen, tried, retry_loop, no_counts, backoff_seconds, at_retry,
  windows, clamped, select_retryable_failed_resources, retry_failed_resources,
}
use togo.Delivery.Retry.Select.{count_where-select_retryable_failed_resources}

-- What the counters show after some candidates.
record Counted (cs : List Candidate) (n m : Counts) : Type 0 where
  attempts : m.ok_count + m.failed_count ≡ n.ok_count + n.failed_count + count_where acts cs
  skips : m.skipped_count + count_where acts cs ≡ n.skipped_count + length cs
  kinds : (k : Kind) → m.by_kind k ≡ n.by_kind k + count_where (of_kind k) cs

sum-tried :
    (b : Bool) (n : Counts)
    → (tried b n).ok_count + (tried b n).failed_count ≡ n.ok_count + n.failed_count + 1
sum-tried true n = omega arith
sum-tried false n = omega arith

tried-skipped : (b : Bool) (n : Counts) → (tried b n).skipped_count ≡ n.skipped_count
tried-skipped true n = refl
tried-skipped false n = refl

tried-kinds : (b : Bool) (n : Counts) (k : Kind) → (tried b n).by_kind k ≡ n.by_kind k
tried-kinds true n k = refl
tried-kinds false n k = refl

module _ {ℓ} {S : Type ℓ} (deliver : ℕ → S → Bool × S) where
  Counted-retry_loop :
      (cs : List Candidate) (n : Counts) (s : S) → Counted cs n (retry_loop deliver cs n s).0
  Counted-retry_loop [] n s = record {
    attempts = omega arith;
    skips = omega arith;
    kinds = λ k. omega arith;
  }
  Counted-retry_loop (c ∷ cs) n s =
      let o = deliver c.resource.id s in
      let goes = Counted-retry_loop cs (tried o.0 (seen c n)) o.1 in
      let skips =
        Counted-retry_loop cs (record (seen c n) { skipped_count = n.skipped_count + 1 }) s in
      let a = sum-tried o.0 (seen c n) in
      let b = tried-skipped o.0 (seen c n) in
      elim (Bool-cases (acts c)) [
        | inl e ↦ record {
          attempts = rw e (omega (arith, goes.attempts, a));
          skips = rw e (omega (arith, goes.skips, b));
          kinds = λ k. rw e (ground (arith, goes.kinds k, tried-kinds o.0 (seen c n) k));
        }
        | inr e ↦ record {
          attempts = rw e (omega (arith, skips.attempts));
          skips = rw e (omega (arith, skips.skips));
          kinds = λ k. rw e (ground (arith, skips.kinds k));
        }
      ]

module _ {ℓ} {S : Type ℓ} (t : TextTables) (now limit : ℕ) (subscriptions : List ℕ)
    (deliver : ℕ → S → Bool × S) where
  -- The report counts what was selected, whatever the deliveries answer: as many retries as
  -- candidates that are handed over, each of them delivered or failed, the others skipped, every
  -- candidate under its class, and no more retries than the limit (20 for 0, and 100 at most).
  pub retry_failed_resources_lem :
      (rows : List Resource) (s : S)
      → let cs = select_retryable_failed_resources t now limit subscriptions rows in
        let report = (retry_failed_resources t now limit subscriptions deliver rows s).0 in
        (report.retried ≡ count_where acts cs)
        × (report.retried ≡ report.delivered_count + report.failed_count)
        × (report.retried + report.skipped_count ≡ length cs)
        × ((k : Kind) → report.by_kind k ≡ count_where (of_kind k) cs)
        × (report.retried ≤ clamped limit 20 100)
  unfolding retry_failed_resources
  retry_failed_resources_lem rows s =
      let cs = select_retryable_failed_resources t now limit subscriptions rows in
      let done = Counted-retry_loop deliver cs no_counts s in
      let most = count_where-select_retryable_failed_resources t now limit subscriptions rows in
      (
        omega (arith, done.skips),
        omega (arith, done.skips, done.attempts),
        omega (arith, done.skips),
        λ k. omega (arith, done.kinds k),
        omega (arith, done.skips, most),
      )

abbrev rise : ℕ × ℕ × ℕ × ℕ → Bool
rise (a, b, c, d) = leb 60 a && leb a b && leb b c && leb c d && leb d 7200

rise-windows : (kind : Kind) → rise (windows kind) ≡ true
rise-windows auth = refl
rise-windows flood = refl
rise-windows invalid = refl
rise-windows timeout = refl
rise-windows network = refl
rise-windows rate = refl
rise-windows temporary = refl
rise-windows final = refl

at_retry_bounds :
    (w : ℕ × ℕ × ℕ × ℕ) (n : ℕ)
    → rise w ≡ true
    → (60 ≤ at_retry w n) × (at_retry w n ≤ 7200) × (at_retry w n ≤ at_retry w (suc n))
at_retry_bounds (a, b, c, d) zero h = (ground arith, ground arith, ground arith)
at_retry_bounds (a, b, c, d) (suc zero) h = (ground arith, ground arith, ground arith)
at_retry_bounds (a, b, c, d) (suc (suc zero)) h = (ground arith, ground arith, ground arith)
at_retry_bounds (a, b, c, d) (suc (suc (suc n))) h = (ground arith, ground arith, omega arith)

-- The wait before a retry is between one minute and two hours, and never falls from one retry to
-- the next, in every class.
pub backoff_seconds_bounds :
    (kind : Kind) (n : ℕ)
    → (60 ≤ backoff_seconds kind n)
      × (backoff_seconds kind n ≤ 7200)
      × (backoff_seconds kind n ≤ backoff_seconds kind (suc n))
backoff_seconds_bounds kind n = at_retry_bounds (windows kind) n (rise-windows kind)
