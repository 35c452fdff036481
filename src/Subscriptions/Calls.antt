-- ===== src/Subscriptions/Calls.antt =====
-- crud/create.py, crud/service.py and crud/rows.py: the calls that make, change, delete and list
-- subscriptions.
use togo.Common.{
  ℕ, suc, ◌+◌, String, Bool, false, not, ◌||◌, Option, none, some, List, [], ◌∷◌, ◌++◌,
  if◌then◌else◌, leb, ltb, ◌==◌, any, select, str_eq, update_where, count_where, map, is_some,
}
use togo.Jobs.{Queue}
use togo.Matching.{contains}
use togo.Scheduling.{Payloads, schedule_subscription_search}
use togo.Subscriptions.{
  Held, Payload, Change, Table, Inserted, inserted_row, integrity_error, Created, there, made,
  create_raised, Updated, not_there, deleted, update_raised, unchanged, updated, list_cache_ttl,
  or_keep, id_of, with_id, get_subscription, invalidate_subscription_list_cache, collides,
  carried_by, hides, duplicate_subscription,
}

abbrev pub completes : Option String → Bool
completes none = false
completes (some status) = str_eq status "completed"

abbrev pub reopens : Option String → Bool
reopens none = false
reopens (some status) = str_eq status "active" || str_eq status "paused"

module _ {C : Type 0} where
  -- `DELETE FROM subscriptions …`
  abbrev pub without_ids : List ℕ → List (Held C) → List (Held C)
  without_ids ids rows = select (λ r. not (any (λ i. id_of r == i) ids)) rows

  unfoldable pub delete_subscription : ℕ → Table C → Table C
  delete_subscription i t =
      invalidate_subscription_list_cache (record t { rows = without_ids (i ∷ []) t.rows })

  abbrev pub deleted_all : List ℕ → Table C → ℕ × Table C
  deleted_all [] t = (0, t)
  deleted_all (i ∷ ids) t = (
    count_where (λ r. any (λ j. id_of r == j) (i ∷ ids)) t.rows,
    invalidate_subscription_list_cache (record t { rows = without_ids (i ∷ ids) t.rows }),
  )

  unfoldable pub delete_subscriptions : List ℕ → Table C → ℕ × Table C
  delete_subscriptions ids t = deleted_all (select (λ i. not (i == 0)) ids) t

  abbrev pub sets_nothing : Change C → Held C → Bool
  sets_nothing c r = not (
      is_some c.title
      || is_some c.keywords
      || is_some c.release_year
      || is_some c.status
      || is_some c.carried)

  abbrev pub changed_row : ℕ → Change C → Held C → Held C
  changed_row now c r = record r {
    tracked = record (r.tracked) {
      title = or_keep c.title r.tracked.title;
      status = or_keep c.status r.tracked.status;
      completed_at = if reopens c.status then none else r.tracked.completed_at;
    };
    release_year = or_keep c.release_year r.release_year;
    keywords = or_keep c.keywords r.keywords;
    carried = carried_by c.carried r.carried;
    updated_at = now;
  }

  abbrev pub write_change : ℕ → ℕ → Change C → Held C → Table C → Updated C × Table C
  write_change now i c r t =
      let changed = changed_row now c r in
      if any (collides changed) (without_ids (i ∷ []) t.rows) then (update_raised, t) else (
        updated changed,
        invalidate_subscription_list_cache
            (record t { rows = update_where (with_id i) (changed_row now c) t.rows }),
      )

  abbrev pub change_found : ℕ → ℕ → Change C → Table C → Option (Held C) → Updated C × Table C
  change_found now i c t none = (not_there, t)
  change_found now i c t (some r) =
      if completes c.status
      then (deleted, delete_subscription i t)
      else if sets_nothing c r
      then (unchanged r, t)
      else write_change now i c r t

  unfoldable pub update_subscription : ℕ → ℕ → Change C → Table C → Updated C × Table C
  unfolding delete_subscription
  update_subscription now i c t = change_found now i c t (get_subscription i t)

  -- ORDER BY created_at DESC
  abbrev pub insert_newer : Held C → List (Held C) → List (Held C)
  insert_newer r [] = r ∷ []
  insert_newer r (q ∷ rows) =
      let rest = insert_newer r rows in
      if leb q.created_at r.created_at then r ∷ q ∷ rows else q ∷ rest

  abbrev pub newest : List (Held C) → List (Held C)
  newest [] = []
  newest (r ∷ rows) = insert_newer r (newest rows)

module _ {C : Type 0} (fullmatch : String → Option (ℕ × ℕ)) (compact : String → String) where
  -- What a SELECT gives now.
  abbrev pub listing : Bool → List (Held C) → List (Held C)
  listing include_completed rows =
      if include_completed
      then newest rows
      else select (λ r. not (hides fullmatch compact r)) (newest rows)

  abbrev pub cache_of : Bool → Table C → Option (ℕ × List (Held C))
  cache_of include_completed t = if include_completed then t.whole_cache else t.visible_cache

  abbrev pub with_cache : Bool → Option (ℕ × List (Held C)) → Table C → Table C
  with_cache include_completed cache t =
      if include_completed
      then record t { whole_cache = cache }
      else record t { visible_cache = cache }

  abbrev pub listed_now : ℕ → Bool → Table C → List (Held C) × Table C
  listed_now now include_completed t =
      let result = listing include_completed t.rows in
      (result, with_cache include_completed (some (now + list_cache_ttl, result)) t)

  abbrev pub listed_or_cached :
      ℕ → Bool → Table C → Option (ℕ × List (Held C)) → List (Held C) × Table C
  listed_or_cached now include_completed t none = listed_now now include_completed t
  listed_or_cached now include_completed t (some (expires, result)) =
      if ltb now expires then (result, t) else listed_now now include_completed t

  unfoldable pub list_subscriptions : ℕ → Bool → Table C → List (Held C) × Table C
  list_subscriptions now include_completed t =
      listed_or_cached now include_completed t (cache_of include_completed t)

  abbrev pub active_subscriptions : ℕ → Table C → List (Held C) × Table C
  active_subscriptions now t =
      let (rows, u) = list_subscriptions now false t in
      (select (λ r. str_eq r.tracked.status "active") rows, u)

  abbrev pub fits_title : String → Held C → Bool
  fits_title needle r =
      let title = compact r.tracked.title in
      str_eq title needle || contains title needle || contains needle title

  unfoldable pub delete_subscription_by_title : ℕ → String → Table C → ℕ × Table C
  unfolding delete_subscriptions list_subscriptions
  delete_subscription_by_title now title t =
      let needle = compact title in
      let (rows, u) = list_subscriptions now false t in
      if str_eq needle ""
      then (0, t)
      else delete_subscriptions (map id_of (select (fits_title needle) rows)) u

  module _ (normal : C → C) (title_year : String → Option ℕ) (payloads : Payloads)
      (sync : ℕ → Table C → Table C) where
    abbrev pub year_or : String → Option ℕ → Option ℕ
    year_or title (some year) = if year == 0 then title_year title else some year
    year_or title none = title_year title

    abbrev pub keywords_or : String → List String → List String
    keywords_or title [] = title ∷ []
    keywords_or title (k ∷ keywords) = k ∷ keywords

    -- The row of `_create_subscription_values`; other columns have their defaults.
    abbrev pub new_row : ℕ → ℕ → Payload C → Held C
    new_row i now p = record {
      tracked = record {
        base = record {
          id = i;
          media_type = p.media_type;
          tmdb_seasons = [];
          tmdb_total_count = p.tmdb_total_count;
          emby_episodes = none;
          emby_episode_keys = [];
          emby_count = 0;
          in_library = false;
        };
        title = p.title;
        tmdb_id = p.tmdb_id;
        status = "active";
        completed_at = none;
        emby_snapshot_failed = false;
      };
      release_year = year_or p.title p.release_year;
      keywords = keywords_or p.title p.keywords;
      carried = normal p.carried;
      created_at = now;
      updated_at = now;
    }

    abbrev pub existing_id : Option (Held C) × Table C → Inserted × Table C
    existing_id (some r, t) = (inserted_row (id_of r), t)
    existing_id (none, t) = (integrity_error, t)

    -- `_insert_subscription_payload`
    unfoldable pub insert_subscription_payload : ℕ → Payload C → Table C → Inserted × Table C
    unfolding duplicate_subscription
    insert_subscription_payload now p t =
        let row = new_row (suc t.last_id) now p in
        if any (collides row) t.rows
        then existing_id (duplicate_subscription fullmatch compact now p t)
        else (
          inserted_row (suc t.last_id),
          record t { rows = t.rows ++ row ∷ []; last_id = suc t.last_id },
        )

    abbrev pub after_insert : ℕ → Queue → Inserted × Table C → Created C × Table C × Queue
    after_insert now q (integrity_error, t) = (create_raised, t, q)
    after_insert now q (inserted_row i, t) = (
      made i,
      invalidate_subscription_list_cache (sync i t),
      (schedule_subscription_search payloads i now q).1,
    )

    abbrev pub after_duplicate :
        ℕ → Payload C → Queue → Option (Held C) × Table C → Created C × Table C × Queue
    after_duplicate now p q (some r, t) = (there r, t, q)
    after_duplicate now p q (none, t) = after_insert now q (insert_subscription_payload now p t)

    unfoldable pub create_subscription :
        ℕ → Payload C → Table C → Queue → Created C × Table C × Queue
    unfolding insert_subscription_payload
    create_subscription now p t q =
        after_duplicate now p q (duplicate_subscription fullmatch compact now p t)
