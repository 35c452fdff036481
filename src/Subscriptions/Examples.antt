-- ===== src/Subscriptions/Examples.antt =====
-- A series that is made, completed and made again: tests and worked instances.
use togo.Common.{ℕ, ◌≡◌, refl, String, Bool, true, false, Option, none, some, List, [], ◌∷◌}
use togo.Episodes.{tv, all_tmdb_episode_keys, owned_episode_keys}
use togo.Jobs.{Queue, latest_job}
use togo.Library.{subscription_is_complete}
use togo.Matching.Fixture.{tracked}
use togo.Scheduling.{Payloads}
use togo.Scheduling.Active.{OnlyLatest, active_count}
use togo.Subscriptions.{
  Held, Payload, Table, Created, inserted_row, made, there, create_raised, hides,
  duplicate_subscription,
}
use togo.Subscriptions.Calls.{
  listing, list_subscriptions, insert_subscription_payload, create_subscription,
}
use togo.Subscriptions.Again.{row_for, duplicate_subscription-insert_subscription_payload}
use togo.Subscriptions.Searched.{search_kind, create_subscription-active_count}
use togo.Subscriptions.Listed.{
  Call, creates, deletes, lists, after_calls, list_subscriptions-listing,
}

abbrev no_match : String → Option (ℕ × ℕ)
no_match s = none

abbrev same_text : String → String
same_text s = s

abbrev no_year : String → Option ℕ
no_year title = none

abbrev same_number : ℕ → ℕ
same_number n = n

abbrev unsynced : ℕ → Table ℕ → Table ℕ
unsynced i t = t

abbrev payloads : Payloads
payloads = record {
  of_id = λ i. "";
  of_limit = λ i. "";
  of_force = λ b. "";
  has_force = λ s. false;
}

abbrev payload : Payload ℕ
payload = record {
  title = "a";
  media_type = tv;
  tmdb_id = "7";
  release_year = none;
  keywords = [];
  tmdb_total_count = 0;
  carried = 5;
}

-- A completed subscription to the series.
abbrev held : Held ℕ
held = record {
  tracked = record tracked { status = "completed" };
  release_year = none;
  keywords = [];
  carried = 5;
  created_at = 1;
  updated_at = 1;
}

abbrev empty : Table ℕ
empty = record { rows = []; last_id = 0; visible_cache = none; whole_cache = none }

abbrev completed : Table ℕ
completed = record empty { rows = held ∷ []; last_id = 1 }

abbrev idle : Queue
idle = record { jobs = []; last_id = 0 }

abbrev creation : Created ℕ × Table ℕ × Queue
creation =
    create_subscription no_match same_text same_number no_year payloads unsynced 2 payload completed
      idle

abbrev made_id : Created ℕ → Option ℕ
made_id (made i) = some i
made_id (there r) = none
made_id create_raised = none

abbrev raised : Created ℕ → Bool
raised create_raised = true
raised (made i) = false
raised (there r) = false

-- After the series was completed it can be made again, but making it once more raises, since the
-- completed row is found first and the new one is not looked for.
test_made_again_raises :
    (made_id creation.0 ≡ some 2)
    × (raised
          (create_subscription no_match same_text same_number no_year payloads unsynced 3 payload
            creation.1 creation.2).0
        ≡ true)
unfolding create_subscription insert_subscription_payload duplicate_subscription
    all_tmdb_episode_keys owned_episode_keys
test_made_again_raises = (refl, refl)

shown :
    hides no_match same_text
      (row_for no_match same_text same_number no_year payloads unsynced 2 payload empty)
    ≡ false
unfolding subscription_is_complete all_tmdb_episode_keys owned_episode_keys
shown = refl

duplicate_subscription-insert_subscription_payload_example :
    let (answer, u) =
      insert_subscription_payload no_match same_text same_number no_year payloads unsynced 2 payload
        empty in
    (answer ≡ inserted_row 1)
    × (duplicate_subscription no_match same_text 3 payload u ≡ (
      some (row_for no_match same_text same_number no_year payloads unsynced 2 payload empty),
      u,
    ))
duplicate_subscription-insert_subscription_payload_example =
    duplicate_subscription-insert_subscription_payload no_match same_text same_number no_year
      payloads unsynced 2 3 payload empty refl refl shown

alone : OnlyLatest search_kind (some 2) idle
unfolding latest_job
alone = refl

create_subscription-active_count_example : active_count search_kind (some 2) creation.2 ≡ 1
unfolding create_subscription insert_subscription_payload duplicate_subscription
create_subscription-active_count_example =
    create_subscription-active_count no_match same_text same_number no_year payloads unsynced 2 2
      payload completed idle alone refl

abbrev calls : List (Call ℕ)
calls = lists 1 true ∷ creates 2 payload ∷ lists 3 false ∷ deletes 1 ∷ []

list_subscriptions-listing_example :
    let t =
      (after_calls no_match same_text same_number no_year payloads unsynced calls
        (completed, idle)).0 in
    (list_subscriptions no_match same_text 4 false t).0 ≡ listing no_match same_text false t.rows
list_subscriptions-listing_example =
    list_subscriptions-listing no_match same_text same_number no_year payloads unsynced calls
      (held ∷ []) 1 idle 4 false
