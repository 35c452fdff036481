-- ===== src/Subscriptions/Searched.antt =====
-- A subscription that is made is searched for.
use togo.Common.{ℕ, ◌≡◌, sym, ap, subst, String, Option, none, some}
use togo.Jobs.{Queue}
use togo.Scheduling.{Payloads, schedule_subscription_search}
use togo.Scheduling.Active.{OnlyLatest, active_count, reuse_or_create_job-IsTheActive}
use togo.Subscriptions.{
  Held, Payload, Table, Inserted, inserted_row, integrity_error, Created, there, made,
  create_raised, duplicate_subscription,
}
use togo.Subscriptions.Calls.{
  insert_subscription_payload, after_insert, after_duplicate, create_subscription,
}

abbrev pub search_kind : String
search_kind = "subscription_search"

module _ {C : Type 0} (fullmatch : String → Option (ℕ × ℕ)) (compact : String → String)
    (normal : C → C) (title_year : String → Option ℕ) (payloads : Payloads)
    (sync : ℕ → Table C → Table C) where
  -- The id of what was made.
  abbrev made_id : Created C → ℕ
  made_id (there r) = 0
  made_id (made i) = i
  made_id create_raised = 0

  after_insert-active :
      (now i : ℕ) (q : Queue) (a : Inserted × Table C)
      → OnlyLatest search_kind (some i) q
      → (after_insert fullmatch compact normal title_year payloads sync now q a).0 ≡ made i
      → active_count search_kind
          (some i)
          (after_insert fullmatch compact normal title_year payloads sync now q a).2
        ≡ 1
  after_insert-active now i q (integrity_error, t) only h = cc
  after_insert-active now i q (inserted_row j, t) only h =
      subst
        (λ k.
          active_count search_kind (some i) (schedule_subscription_search payloads k now q).1 ≡ 1)
        (sym (ap made_id h))
        (reuse_or_create_job-IsTheActive search_kind (some i) (some (payloads.of_id i)) now q
          only).0

  after_duplicate-active :
      (now i : ℕ) (p : Payload C) (q : Queue) (a : Option (Held C) × Table C)
      → OnlyLatest search_kind (some i) q
      → (after_duplicate fullmatch compact normal title_year payloads sync now p q a).0 ≡ made i
      → active_count search_kind
          (some i)
          (after_duplicate fullmatch compact normal title_year payloads sync now p q a).2
        ≡ 1
  after_duplicate-active now i p q (some r, t) only h = cc
  after_duplicate-active now i p q (none, t) only h =
      after_insert-active now i q
        (insert_subscription_payload fullmatch compact normal title_year payloads sync now p t) only
        h

  -- When a subscription is made, and of its older search jobs none but the latest was queued or running,
  -- exactly one search job of it is queued or running afterwards.
  pub create_subscription-active_count :
      (now i : ℕ) (p : Payload C) (t : Table C) (q : Queue)
      → OnlyLatest search_kind (some i) q
      → (create_subscription fullmatch compact normal title_year payloads sync now p t q).0 ≡ made i
      → active_count search_kind
          (some i)
          (create_subscription fullmatch compact normal title_year payloads sync now p t q).2
        ≡ 1
  unfolding create_subscription
  create_subscription-active_count now i p t q only h =
      after_duplicate-active now i p q (duplicate_subscription fullmatch compact now p t) only h
