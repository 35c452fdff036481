-- ===== src/Subscriptions.antt =====
-- app/services/subscription/crud: the table of subscriptions, how one is made, changed and deleted, and
-- the cached list of them. The rows stand in the order of their ids, in which a SELECT without an order
-- reads them here. Columns that are only carried along are one value. Parameters: the folding of titles
-- (`compact_match_text`), the least year in a title, the normal form of what is carried, the JSON texts
-- of jobs, and what the library changes after a subscription was made. A field that a caller sets to
-- null is not modelled.
use togo.Common.{
  ℕ, suc, ◌+◌, ◌≡◌, String, Bool, true, false, not, ◌&&◌, ◌||◌, Option, none, some, List, [], ◌∷◌,
  ◌++◌, if◌then◌else◌, leb, ltb, ◌==◌, any, select, first?, seconds, str_eq, update_where, length,
}
use togo.Episodes.{Media, Subscription, is_tv}
use togo.Jobs.{Queue}
use togo.Library.{Tracked, subscription_should_hide, mark_completed_subscription}
use togo.Matching.{contains}
use togo.Scheduling.{Payloads, schedule_subscription_search}
pub mod Calls
pub mod Again
pub mod Searched
pub mod Listed
mod Examples

-- A TMDB id is its decimal text, and empty where there is none.
pub record Held (C : Type 0) : Type 0 where
  pub tracked : Tracked
  pub release_year : Option ℕ
  pub keywords : List String
  pub carried : C
  pub created_at : ℕ
  pub updated_at : ℕ

pub record Payload (C : Type 0) : Type 0 where
  pub title : String
  pub media_type : Media
  pub tmdb_id : String
  pub release_year : Option ℕ
  pub keywords : List String
  pub tmdb_total_count : ℕ
  pub carried : C

-- The fields that a caller sets.
pub record Change (C : Type 0) : Type 0 where
  pub title : Option String
  pub keywords : Option (List String)
  pub release_year : Option (Option ℕ)
  pub status : Option String
  pub carried : Option (C → C)

-- The table, with the lists that are cached, and the times at which these expire.
pub record Table (C : Type 0) : Type 0 where
  pub rows : List (Held C)
  pub last_id : ℕ
  pub visible_cache : Option (ℕ × List (Held C))
  pub whole_cache : Option (ℕ × List (Held C))

pub data Inserted : Type 0 where
  inserted_row : ℕ → Inserted
  integrity_error : Inserted

pub data Created (C : Type 0) : Type 0 where
  there : Held C → Created C
  made : ℕ → Created C
  create_raised : Created C

pub data Updated (C : Type 0) : Type 0 where
  not_there deleted update_raised : Updated C
  unchanged updated : Held C → Updated C

abbrev pub list_cache_ttl : ℕ
list_cache_ttl = seconds 12

abbrev pub same_media : Media → Media → Bool
same_media a b = if is_tv a then is_tv b else not (is_tv b)

abbrev pub or_keep : {A : Type 0} → Option A → A → A
or_keep none a = a
or_keep (some b) a = b

module _ {C : Type 0} where
  abbrev pub id_of : Held C → ℕ
  id_of r = r.tracked.base.id

  abbrev pub with_id : ℕ → Held C → Bool
  with_id i r = id_of r == i

  abbrev pub get_subscription : ℕ → Table C → Option (Held C)
  get_subscription i t = first? (with_id i) t.rows

  abbrev pub invalidate_subscription_list_cache : Table C → Table C
  invalidate_subscription_list_cache t = record t { visible_cache = none; whole_cache = none }

  -- The UNIQUE index on the type and the TMDB id of rows that are not completed.
  abbrev pub is_indexed : Held C → Bool
  is_indexed r = not (str_eq r.tracked.tmdb_id "") && not (str_eq r.tracked.status "completed")

  abbrev pub collides : Held C → Held C → Bool
  collides r q =
      is_indexed r
      && is_indexed q
      && same_media r.tracked.base.media_type q.tracked.base.media_type
      && str_eq q.tracked.tmdb_id r.tracked.tmdb_id

  abbrev pub carried_by : Option (C → C) → C → C
  carried_by none c = c
  carried_by (some f) c = f c

  -- The UPDATE of `mark_completed_subscription`, with the list that it makes stale.
  abbrev pub mark_row : ℕ → Held C → Held C
  mark_row now r = record r {
    tracked = (mark_completed_subscription now r.tracked).1;
    updated_at = now;
  }

  abbrev pub mark_completed : ℕ → Held C → Table C → Table C
  mark_completed now r t =
      if str_eq r.tracked.status "completed"
      then t
      else invalidate_subscription_list_cache
          (record t { rows = update_where (with_id (id_of r)) (mark_row now) t.rows })

  module _ (fullmatch : String → Option (ℕ × ℕ)) (compact : String → String) where
    abbrev pub hides : Held C → Bool
    hides r = subscription_should_hide fullmatch r.tracked

    -- `_visible_duplicate_or_none`
    abbrev pub visible_duplicate_or_none : ℕ → Held C → Table C → Option (Held C) × Table C
    visible_duplicate_or_none now r t =
        if hides r then (none, mark_completed now r t) else (some r, t)

    -- The loop over the rows without a TMDB id.
    abbrev pub first_same_title : ℕ → String → List (Held C) → Table C → Option (Held C) × Table C
    first_same_title now title [] t = (none, t)
    first_same_title now title (r ∷ rows) t =
        let rest =
          first_same_title now title rows (if hides r then mark_completed now r t else t) in
        if not (hides r) && str_eq (compact r.tracked.title) title then (some r, t) else rest

    abbrev pub is_of_tmdb : Payload C → Held C → Bool
    is_of_tmdb p r =
        not (str_eq p.tmdb_id "")
        && same_media p.media_type r.tracked.base.media_type
        && str_eq r.tracked.tmdb_id p.tmdb_id

    abbrev pub without_tmdb : Payload C → Held C → Bool
    without_tmdb p r =
        same_media p.media_type r.tracked.base.media_type && str_eq r.tracked.tmdb_id ""

    abbrev pub duplicate_of : ℕ → Payload C → Table C → Option (Held C) → Option (Held C) × Table C
    duplicate_of now p t (some r) = visible_duplicate_or_none now r t
    duplicate_of now p t none =
        if str_eq (compact p.title) ""
        then (none, t)
        else first_same_title now (compact p.title) (select (without_tmdb p) t.rows) t

    unfoldable pub duplicate_subscription : ℕ → Payload C → Table C → Option (Held C) × Table C
    duplicate_subscription now p t = duplicate_of now p t (first? (is_of_tmdb p) t.rows)
