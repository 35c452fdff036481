-- ===== src/Delivery/Retry.antt =====
-- delivery/retry.py: the rows of failed deliveries, those among them that are due, and their retry.
-- Parameters: Unicode's tables, the ids of the table `subscriptions` for the JOIN, and the call
-- that delivers a row. A limit is a number from 0, where 0 stands for the default as in the source.

pub mod Select
pub mod Accounting
use togo.Common.{
  ℕ, zero, suc, ◌+◌, ◌-◌, ◌*◌, String, Bool, true, false, not, ◌&&◌, ◌||◌, Option, none, some, List,
  [], ◌∷◌, ◌==◌, if◌then◌else◌, ltb, leb, min, max, or_else, seconds, length, take, any, select,
}
use togo.Delivery.{
  Status, failed, link_invalid, delivery_failed_retryable, delivery_failed_final, Resource,
  TextTables,
}
use togo.Delivery.Failure.{
  Kind, auth, flood, invalid, timeout, network, rate, temporary, final, classify_delivery_failure,
}

-- `max(1, min(int(limit or default), cap))`
abbrev pub clamped : ℕ → ℕ → ℕ → ℕ
clamped limit default cap = max 1 (min (if limit == 0 then default else limit) cap)

abbrev is_failed : Status → Bool
is_failed failed = true
is_failed delivery_failed_retryable = true
is_failed delivery_failed_final = true
is_failed _ = false

-- ORDER BY updated_at DESC, id DESC, where a NULL comes last.
abbrev pub comes_first : Resource → Resource → Bool
comes_first a b = after a.updated_at b.updated_at
  where
    after : Option ℕ → Option ℕ → Bool
    after none none = ltb b.id a.id
    after none (some t) = false
    after (some s) none = true
    after (some s) (some t) = ltb t s || (s == t && ltb b.id a.id)

abbrev pub insert : Resource → List Resource → List Resource
insert r [] = r ∷ []
insert r (s ∷ rows) = let rest = insert r rows in if comes_first r s then r ∷ s ∷ rows else s ∷ rest

abbrev pub sorted : List Resource → List Resource
sorted [] = []
sorted (r ∷ rows) = insert r (sorted rows)

abbrev pub retry_listed : List ℕ → Resource → Bool
retry_listed subscriptions r = is_failed r.status && any (λ s. s == r.subscription_id) subscriptions

unfoldable pub list_failed_resources : ℕ → List ℕ → List Resource → List Resource
list_failed_resources limit subscriptions rows =
    take (clamped limit 100 500) (sorted (select (retry_listed subscriptions) rows))

-- `RETRY_BACKOFF_SECONDS`, of which the last entry stands for every later retry.
abbrev pub windows : Kind → ℕ × ℕ × ℕ × ℕ
windows timeout = (60, 180, 600, 1800)
windows network = (90, 300, 900, 1800)
windows temporary = (120, 600, 1800, 3600)
windows rate = (300, 900, 1800, 3600)
windows flood = (600, 1800, 3600, 7200)
windows auth = (900, 1800, 3600, 7200)
windows _ = (120, 600, 1800, 3600)

abbrev pub at_retry : ℕ × ℕ × ℕ × ℕ → ℕ → ℕ
at_retry (a, b, c, d) zero = a
at_retry (a, b, c, d) (suc zero) = b
at_retry (a, b, c, d) (suc (suc zero)) = c
at_retry (a, b, c, d) (suc (suc (suc n))) = d

abbrev pub backoff_seconds : Kind → ℕ → ℕ
backoff_seconds kind retries = at_retry (windows kind) retries

-- The time from which the wait is counted.
abbrev pub stamp : Resource → ℕ
stamp r = or_else r.updated_at r.created_at

abbrev pub is_retry_kind : Kind → Bool
is_retry_kind invalid = false
is_retry_kind final = false
is_retry_kind _ = true

unfoldable pub retry_due : ℕ → Kind → Resource → Bool
retry_due now kind r =
    is_retry_kind kind && leb (stamp r + seconds (backoff_seconds kind r.retry_count)) now

-- `skip_reason`, of which `act` is the empty one.
pub data Reason : Type 0 where
  act invalid_link final_exhausted backoff : Reason

pub record Candidate : Type 0 where
  pub resource : Resource
  pub failure_kind : Kind
  pub skip_reason : Reason

abbrev pub is_invalid : Status → Kind → Bool
is_invalid link_invalid _ = true
is_invalid _ invalid = true
is_invalid _ _ = false

abbrev pub is_final : Status → Kind → Bool
is_final delivery_failed_final final = true
is_final _ _ = false

unfoldable pub reason : ℕ → Kind → Resource → Reason
unfolding retry_due
reason now kind r =
    if is_invalid r.status kind
    then invalid_link
    else if is_final r.status kind && leb 3 r.retry_count
    then final_exhausted
    else if not (retry_due now kind r)
    then backoff
    else act

unfoldable pub judged : TextTables → ℕ → Resource → Candidate
unfolding reason
judged t now r =
    let kind = classify_delivery_failure t (or_else r.last_error "") in
    record {
      resource = r;
      failure_kind = if is_invalid r.status kind then invalid else kind;
      skip_reason = reason now kind r;
    }

abbrev pub acts : Candidate → Bool
acts c = elim c.skip_reason [ act ↦ true | _ ↦ false ]

-- The loop of `select_retryable_failed_resources`, with the number that may still be taken: it
-- breaks after the candidate that uses the last of it up.
abbrev pub select_candidates : TextTables → ℕ → ℕ → List Resource → List Candidate
select_candidates t now left [] = []
select_candidates t now left (r ∷ rows) =
    let c = judged t now r in
    let skips = select_candidates t now left rows in
    let others = select_candidates t now (left - 1) rows in
    if acts c then (if leb left 1 then c ∷ [] else c ∷ others) else c ∷ skips

unfoldable pub select_retryable_failed_resources :
    TextTables → ℕ → ℕ → List ℕ → List Resource → List Candidate
unfolding list_failed_resources judged
select_retryable_failed_resources t now limit subscriptions rows =
    select_candidates t now (clamped limit 20 100) (
      list_failed_resources (max 1 (min ((if limit == 0 then 20 else limit) * 4) 200)) subscriptions
        rows)

abbrev pub kind_index : Kind → ℕ
kind_index auth = 0
kind_index flood = 1
kind_index invalid = 2
kind_index timeout = 3
kind_index network = 4
kind_index rate = 5
kind_index temporary = 6
kind_index final = 7

-- The counters of `retry_failed_resources`; `by_kind` has a 0 for a kind that the source's has not.
pub record Counts : Type 0 where
  pub ok_count : ℕ
  pub failed_count : ℕ
  pub skipped_count : ℕ
  pub by_kind : Kind → ℕ

abbrev pub of_kind : Kind → Candidate → Bool
of_kind kind c = kind_index c.failure_kind == kind_index kind

abbrev pub seen : Candidate → Counts → Counts
seen c n = record n { by_kind = λ k. if of_kind k c then n.by_kind k + 1 else n.by_kind k }

abbrev pub tried : Bool → Counts → Counts
tried true n = record n { ok_count = n.ok_count + 1 }
tried false n = record n { failed_count = n.failed_count + 1 }

-- The loop over the candidates, with a state that the deliveries share.
abbrev pub retry_loop {ℓ} :
    {S : Type ℓ} → (ℕ → S → Bool × S) → List Candidate → Counts → S → Counts × S
retry_loop deliver [] n s = (n, s)
retry_loop deliver (c ∷ cs) n s =
    let o = deliver c.resource.id s in
    let goes = retry_loop deliver cs (tried o.0 (seen c n)) o.1 in
    let skips =
      retry_loop deliver cs (record (seen c n) { skipped_count = n.skipped_count + 1 }) s in
    if acts c then goes else skips

pub record Report : Type 0 where
  pub retried : ℕ
  pub delivered_count : ℕ
  pub failed_count : ℕ
  pub skipped_count : ℕ
  pub by_kind : Kind → ℕ

abbrev pub no_counts : Counts
no_counts = record { ok_count = 0; failed_count = 0; skipped_count = 0; by_kind = λ k. 0 }

abbrev pub retry_candidates {ℓ} :
    {S : Type ℓ} → (ℕ → S → Bool × S) → List Candidate → S → Report × S
retry_candidates deliver candidates s =
    let out = retry_loop deliver candidates no_counts s in
    (
      record {
        retried = length candidates - out.0.skipped_count;
        delivered_count = out.0.ok_count;
        failed_count = out.0.failed_count;
        skipped_count = out.0.skipped_count;
        by_kind = out.0.by_kind;
      },
      out.1,
    )

unfoldable pub retry_failed_resources {ℓ} :
    {S : Type ℓ} → TextTables → ℕ → ℕ → List ℕ → (ℕ → S → Bool × S) → List Resource → S → Report × S
unfolding select_retryable_failed_resources
retry_failed_resources t now limit subscriptions deliver rows s =
    retry_candidates deliver (select_retryable_failed_resources t now limit subscriptions rows) s
