-- ===== src/Delivery/Examples.antt =====
-- The deliveries on a small table: tests and worked instances.
use togo.Common.{
  ℕ, zero, suc, ◌≤◌, ◌≡◌, refl, Bool, true, false, not, String, Option, none, some, List, [], ◌∷◌,
  ◌==◌, count_where, All, is_some,
}
use togo.Delivery.{
  Resource, TextTables, pending, delivery_failed_retryable, delivery_failed_final, link_invalid,
  Status,
}
use togo.Delivery.Failure.{classify_delivery_failure, delivery_failed_status, holds_any}
use togo.Delivery.Service.{
  Environment, World, Answer, answered, raised, timed_out, share, deliver_resource, deliver_locked,
  perform_delivery, existing_effective_delivery,
}
use togo.Delivery.Service.Rows.{row, delivered_row}
use togo.Delivery.Service.Once.{Once, key_of}
use togo.Delivery.Service.Steps.{untried, deliver_each, deliver_each-Once}
use togo.Delivery.Service.Outcome.{deliver_resource-delivered_row}
use togo.Delivery.Service.Stale.{deliver_locked-stale}
use togo.Delivery.Retry.{select_retryable_failed_resources, retry_failed_resources, acts, clamped}
use togo.Delivery.Retry.Select.{
  IsDue, select_retryable_failed_resources-IsDue, count_where-select_retryable_failed_resources,
}

abbrev tables : TextTables
tables = record { casefold = λ s. s; strip = λ s. s }

-- Links with one key each, and a 115 adapter whose first call fails.
abbrev env : Environment
env = record {
  tables = tables;
  dedupe_key = λ url. some (share, url);
  normalize_115 = λ url. some url;
  is_valid_download_link = λ url. true;
  is_115 = λ url. true;
  is_allowed = λ r. true;
  by_bot = false;
  forward_to_bot = λ n url. timed_out;
  transfer = λ n url r. if_first n;
  offline_download = λ n url r. raised "busy";
}
  where
    if_first : ℕ → Answer
    if_first zero = timed_out
    if_first (suc n) = answered true

abbrev resource : ℕ → String → Status → ℕ → Option String → Resource
resource i url status retries error = record {
  id = i;
  subscription_id = 1;
  title = "title";
  url = url;
  status = status;
  retry_count = retries;
  last_error = error;
  created_at = 0;
  updated_at = some 0;
}

abbrev two_of_one_link : List Resource
two_of_one_link = resource 1 "a" pending 0 none ∷ resource 2 "a" pending 0 none ∷ []

test_timeout_is_retryable : delivery_failed_status tables "投递超时（300 秒）" ≡ delivery_failed_retryable
unfolding delivery_failed_status holds_any
test_timeout_is_retryable = refl

test_bad_link_is_invalid : delivery_failed_status tables "资源链接格式无效" ≡ link_invalid
unfolding delivery_failed_status holds_any
test_bad_link_is_invalid = refl

-- The second row is marked as delivered without a second transfer.
test_one_transfer :
    (deliver_each env ((5, 1) ∷ (6, 1) ∷ (7, 2) ∷ []) (untried two_of_one_link)).tried
    ≡ (1, true) ∷ (1, false) ∷ []
unfolding deliver_resource deliver_locked delivery_failed_status holds_any
test_one_transfer = refl

deliver_each-Once_example :
    Once env
      (λ i. key_of env i (untried two_of_one_link))
      (deliver_each env ((5, 1) ∷ (6, 1) ∷ (7, 2) ∷ []) (untried two_of_one_link)).tried
deliver_each-Once_example = deliver_each-Once env ((5, 1) ∷ (6, 1) ∷ (7, 2) ∷ []) two_of_one_link

deliver_resource-delivered_row_example :
    (deliver_resource env 5 1 (untried two_of_one_link)).0
    ≡ delivered_row (row 1 (deliver_resource env 5 1 (untried two_of_one_link)).1)
deliver_resource-delivered_row_example =
    deliver_resource-delivered_row env 5 1 (untried two_of_one_link)

abbrev alone : World
alone = record { rows = resource 1 "a" pending 0 none ∷ []; tried = (9, false) ∷ [] }

alone_is_new :
    is_some (existing_effective_delivery env (resource 1 "a" pending 0 none) alone) ≡ false
unfolding existing_effective_delivery
alone_is_new = refl

deliver_locked-stale_example :
    let r = resource 1 "a" pending 0 none in
    let w' = (deliver_locked env 5 r alone).1 in
    (deliver_locked env 6 r w').1.tried
    ≡ (1, (perform_delivery env r w').0) ∷ (1, (perform_delivery env r alone).0) ∷ (9, false) ∷ []
deliver_locked-stale_example =
    deliver_locked-stale env (resource 1 "a" pending 0 none) 5 6 alone refl refl alone_is_new

abbrev failures : List Resource
failures =
    resource 1 "a" delivery_failed_retryable 0 (some "timeout")
    ∷ resource 2 "b" delivery_failed_final 0 (some "no such thing")
    ∷ resource 3 "c" delivery_failed_retryable 3 (some "timeout")
    ∷ []

abbrev deliver_odd : ℕ → List ℕ → Bool × List ℕ
deliver_odd i done = (not (i == 2), i ∷ done)

-- The `final` row and the row that still waits are skipped.
test_retry_one :
    (retry_failed_resources tables 200000000 0 (1 ∷ []) deliver_odd failures []).1 ≡ 1 ∷ []
unfolding retry_failed_resources classify_delivery_failure holds_any
test_retry_one = refl

select_retryable_failed_resources-IsDue_example :
    All (IsDue 200000000) (select_retryable_failed_resources tables 200000000 5 (1 ∷ []) failures)
select_retryable_failed_resources-IsDue_example =
    select_retryable_failed_resources-IsDue tables 200000000 5 (1 ∷ []) failures

count_where-select_retryable_failed_resources_example :
    count_where acts (select_retryable_failed_resources tables 200000000 5 (1 ∷ []) failures)
    ≤ clamped 5 20 100
count_where-select_retryable_failed_resources_example =
    count_where-select_retryable_failed_resources tables 200000000 5 (1 ∷ []) failures
