-- ===== src/Subscriptions/Listed.antt =====
-- The cached lists of subscriptions are never stale after the calls of this component.
use togo.Common.{
  ℕ, suc, ◌==◌, ◌≡◌, refl, String, Bool, true, false, not, ◌&&◌, Option, none, some, List, [], ◌∷◌,
  if◌then◌else◌, inl, inr, Bool-cases, ltb, any, select, str_eq, map, first?,
}
use togo.Jobs.{Queue}
use togo.Scheduling.{Payloads}
use togo.Subscriptions.{
  Held, Payload, Change, Table, id_of, get_subscription, collides, mark_completed, hides,
  first_same_title, is_of_tmdb, without_tmdb, duplicate_of, duplicate_subscription,
}
use togo.Subscriptions.Calls.{
  without_ids, delete_subscription, deleted_all, delete_subscriptions, completes, sets_nothing,
  changed_row, change_found, update_subscription, listing, cache_of, listed_now, listed_or_cached,
  list_subscriptions, fits_title, delete_subscription_by_title, new_row, existing_id,
  insert_subscription_payload, after_insert, after_duplicate, create_subscription,
}

pub data Call (C : Type 0) : Type 0 where
  creates : ℕ → Payload C → Call C
  updates : ℕ → ℕ → Change C → Call C
  deletes : ℕ → Call C
  deletes_all : List ℕ → Call C
  deletes_title : ℕ → String → Call C
  lists : ℕ → Bool → Call C

module _ {C : Type 0} (fullmatch : String → Option (ℕ × ℕ)) (compact : String → String) where
  abbrev CachedAs : Bool → List (Held C) → Option (ℕ × List (Held C)) → Type 0
  CachedAs include_completed rows none = Unit
  CachedAs include_completed rows (some (expires, result)) =
      result ≡ listing fullmatch compact include_completed rows

  -- What is cached is what a SELECT gives now.
  abbrev pub IsFresh : Table C → Type 0
  IsFresh t = CachedAs false t.rows t.visible_cache × CachedAs true t.rows t.whole_cache

  mark_completed-IsFresh :
      (now : ℕ) (r : Held C) (t : Table C) → IsFresh t → IsFresh (mark_completed now r t)
  mark_completed-IsFresh now r t h = elim (Bool-cases (str_eq r.tracked.status "completed")) [
    | inl e ↦ rw e h
    | inr e ↦ rw e (tt, tt)
  ]

  marked-IsFresh :
      (now : ℕ) (r : Held C) (t : Table C)
      → IsFresh t
      → IsFresh (if hides fullmatch compact r then mark_completed now r t else t)
  marked-IsFresh now r t h = elim (Bool-cases (hides fullmatch compact r)) [
    | inl e ↦ rw e (mark_completed-IsFresh now r t h)
    | inr e ↦ rw e h
  ]

  first_same_title-IsFresh :
      (now : ℕ) (title : String) (rows : List (Held C)) (t : Table C)
      → IsFresh t
      → IsFresh (first_same_title fullmatch compact now title rows t).1
  first_same_title-IsFresh now title [] t h = h
  first_same_title-IsFresh now title (r ∷ rows) t h =
      elim (Bool-cases
        (not (hides fullmatch compact r) && str_eq (compact r.tracked.title) title)) [
          | inl e ↦ rw e h
          | inr e ↦ rw e (
              first_same_title-IsFresh now title rows
                (if hides fullmatch compact r then mark_completed now r t else t)
                (marked-IsFresh now r t h))
        ]

  duplicate_of-IsFresh :
      (now : ℕ) (p : Payload C) (t : Table C) (o : Option (Held C))
      → IsFresh t
      → IsFresh (duplicate_of fullmatch compact now p t o).1
  duplicate_of-IsFresh now p t (some r) h = elim (Bool-cases (hides fullmatch compact r)) [
    | inl e ↦ rw e (mark_completed-IsFresh now r t h)
    | inr e ↦ rw e h
  ]
  duplicate_of-IsFresh now p t none h = elim (Bool-cases (str_eq (compact p.title) "")) [
    | inl e ↦ rw e h
    | inr e ↦ rw e (
        first_same_title-IsFresh now (compact p.title)
          (select (without_tmdb fullmatch compact p) t.rows) t h)
  ]

  duplicate_subscription-IsFresh :
      (now : ℕ) (p : Payload C) (t : Table C)
      → IsFresh t
      → IsFresh (duplicate_subscription fullmatch compact now p t).1
  unfolding duplicate_subscription
  duplicate_subscription-IsFresh now p t h =
      duplicate_of-IsFresh now p t (first? (is_of_tmdb fullmatch compact p) t.rows) h

  deleted_all-IsFresh : (ids : List ℕ) (t : Table C) → IsFresh t → IsFresh (deleted_all ids t).1
  deleted_all-IsFresh [] t h = h
  deleted_all-IsFresh (i ∷ ids) t h = (tt, tt)

  change_found-IsFresh :
      (now i : ℕ) (c : Change C) (t : Table C) (o : Option (Held C))
      → IsFresh t
      → IsFresh (change_found now i c t o).1
  unfolding delete_subscription
  change_found-IsFresh now i c t none h = h
  change_found-IsFresh now i c t (some r) h = elim (Bool-cases (completes c.status)) [
    | inl e ↦ rw e (tt, tt)
    | inr e ↦ elim (Bool-cases (sets_nothing c r)) [
      | inl f ↦ rw (e, f) h
      | inr f ↦
          elim (Bool-cases (any (collides (changed_row now c r)) (without_ids (i ∷ []) t.rows))) [
            | inl g ↦ rw (e, f, g) h
            | inr g ↦ rw (e, f, g) (tt, tt)
          ]
    ]
  ]

  listed_now-IsFresh :
      (now : ℕ) (include_completed : Bool) (t : Table C)
      → IsFresh t
      → IsFresh (listed_now fullmatch compact now include_completed t).1
  listed_now-IsFresh now true t h = (h.0, refl)
  listed_now-IsFresh now false t h = (refl, h.1)

  cache_of-CachedAs :
      (include_completed : Bool) (t : Table C)
      → IsFresh t
      → CachedAs include_completed t.rows (cache_of fullmatch compact include_completed t)
  cache_of-CachedAs true t h = h.1
  cache_of-CachedAs false t h = h.0

  listed_or_cached-IsFresh :
      (now : ℕ) (include_completed : Bool) (t : Table C) (o : Option (ℕ × List (Held C)))
      → IsFresh t
      → IsFresh (listed_or_cached fullmatch compact now include_completed t o).1
  listed_or_cached-IsFresh now include_completed t none h =
      listed_now-IsFresh now include_completed t h
  listed_or_cached-IsFresh now include_completed t (some (expires, result)) h =
      elim (Bool-cases (ltb now expires)) [
        | inl e ↦ rw e h
        | inr e ↦ rw e (listed_now-IsFresh now include_completed t h)
      ]

  listed_or_cached-listing :
      (now : ℕ) (include_completed : Bool) (t : Table C) (o : Option (ℕ × List (Held C)))
      → CachedAs include_completed t.rows o
      → (listed_or_cached fullmatch compact now include_completed t o).0
        ≡ listing fullmatch compact include_completed t.rows
  listed_or_cached-listing now include_completed t none h = refl
  listed_or_cached-listing now include_completed t (some (expires, result)) h =
      elim (Bool-cases (ltb now expires)) [ inl e ↦ rw e h | inr e ↦ rw e refl ]

  delete_subscriptions-IsFresh :
      (ids : List ℕ) (t : Table C) → IsFresh t → IsFresh (delete_subscriptions ids t).1
  unfolding delete_subscriptions
  delete_subscriptions-IsFresh ids t h = deleted_all-IsFresh (select (λ i. not (i == 0)) ids) t h

  list_subscriptions-IsFresh :
      (now : ℕ) (include_completed : Bool) (t : Table C)
      → IsFresh t
      → IsFresh (list_subscriptions fullmatch compact now include_completed t).1
  unfolding list_subscriptions
  list_subscriptions-IsFresh now include_completed t h =
      listed_or_cached-IsFresh now include_completed t
        (cache_of fullmatch compact include_completed t) h

  delete_subscription_by_title-IsFresh :
      (now : ℕ) (title : String) (t : Table C)
      → IsFresh t
      → IsFresh (delete_subscription_by_title fullmatch compact now title t).1
  unfolding delete_subscription_by_title
  delete_subscription_by_title-IsFresh now title t h =
      elim (Bool-cases (str_eq (compact title) "")) [
        | inl e ↦ rw e h
        | inr e ↦
            let a = list_subscriptions fullmatch compact now false t in
            rw e (
              delete_subscriptions-IsFresh
                (map id_of (select (fits_title fullmatch compact (compact title)) a.0)) a.1
                (list_subscriptions-IsFresh now false t h))
      ]

  module _ (normal : C → C) (title_year : String → Option ℕ) (payloads : Payloads)
      (sync : ℕ → Table C → Table C) where
    existing_id-IsFresh :
        (now : ℕ) (q : Queue) (a : Option (Held C) × Table C)
        → IsFresh a.1
        → IsFresh
            (after_insert fullmatch compact normal title_year payloads sync now q
              (existing_id fullmatch compact normal title_year payloads sync a)).1
    existing_id-IsFresh now q (none, t) h = h
    existing_id-IsFresh now q (some r, t) h = (tt, tt)

    insert-IsFresh :
        (now : ℕ) (p : Payload C) (q : Queue) (t : Table C)
        → IsFresh t
        → IsFresh
            (after_insert fullmatch compact normal title_year payloads sync now q (
              insert_subscription_payload fullmatch compact normal title_year payloads sync now p
                t)).1
    unfolding insert_subscription_payload
    insert-IsFresh now p q t h =
        elim (Bool-cases (
          any
            (collides
              (new_row fullmatch compact normal title_year payloads sync (suc t.last_id) now p))
            t.rows)) [
              | inl e ↦ rw e (
                  existing_id-IsFresh now q (duplicate_subscription fullmatch compact now p t)
                    (duplicate_subscription-IsFresh now p t h))
              | inr e ↦ rw e (tt, tt)
            ]

    after_duplicate-IsFresh :
        (now : ℕ) (p : Payload C) (q : Queue) (a : Option (Held C) × Table C)
        → IsFresh a.1
        → IsFresh (after_duplicate fullmatch compact normal title_year payloads sync now p q a).1
    after_duplicate-IsFresh now p q (some r, t) h = h
    after_duplicate-IsFresh now p q (none, t) h = insert-IsFresh now p q t h

    -- The calls of the component.
    abbrev pub apply : Call C → Table C × Queue → Table C × Queue
    apply (creates now p) (t, q) =
        let (answer, u, v) =
          create_subscription fullmatch compact normal title_year payloads sync now p t q in
        (u, v)
    apply (updates now i c) (t, q) = ((update_subscription now i c t).1, q)
    apply (deletes i) (t, q) = (delete_subscription i t, q)
    apply (deletes_all ids) (t, q) = ((delete_subscriptions ids t).1, q)
    apply (deletes_title now title) (t, q) =
        ((delete_subscription_by_title fullmatch compact now title t).1, q)
    apply (lists now include_completed) (t, q) =
        ((list_subscriptions fullmatch compact now include_completed t).1, q)

    apply-IsFresh : (c : Call C) (a : Table C × Queue) → IsFresh a.0 → IsFresh (apply c a).0
    unfolding create_subscription update_subscription delete_subscription
    apply-IsFresh (creates now p) (t, q) h =
        after_duplicate-IsFresh now p q (duplicate_subscription fullmatch compact now p t)
          (duplicate_subscription-IsFresh now p t h)
    apply-IsFresh (updates now i c) (t, q) h =
        change_found-IsFresh now i c t (get_subscription i t) h
    apply-IsFresh (deletes i) (t, q) h = (tt, tt)
    apply-IsFresh (deletes_all ids) (t, q) h = delete_subscriptions-IsFresh ids t h
    apply-IsFresh (deletes_title now title) (t, q) h =
        delete_subscription_by_title-IsFresh now title t h
    apply-IsFresh (lists now include_completed) (t, q) h =
        list_subscriptions-IsFresh now include_completed t h

    abbrev pub after_calls : List (Call C) → Table C × Queue → Table C × Queue
    after_calls [] a = a
    after_calls (c ∷ calls) a = after_calls calls (apply c a)

    after_calls-IsFresh :
        (calls : List (Call C)) (a : Table C × Queue)
        → IsFresh a.0
        → IsFresh (after_calls calls a).0
    after_calls-IsFresh [] a h = h
    after_calls-IsFresh (c ∷ calls) a h =
        after_calls-IsFresh calls (apply c a) (apply-IsFresh c a h)

    -- After any calls of the component from a table of which nothing is cached, a list of subscriptions
    -- is what a SELECT gives then, whatever the library changed when one was made, and whether the list
    -- comes from the cache or not.
    pub list_subscriptions-listing :
        (calls : List (Call C)) (rows : List (Held C)) (last_id : ℕ) (q : Queue) (now : ℕ)
        (include_completed : Bool)
        → let t =
            (after_calls calls (
              record { rows = rows; last_id = last_id; visible_cache = none; whole_cache = none },
              q,
            )).0 in
          (list_subscriptions fullmatch compact now include_completed t).0
          ≡ listing fullmatch compact include_completed t.rows
    unfolding list_subscriptions
    list_subscriptions-listing calls rows last_id q now include_completed =
        let a = after_calls calls (
          record { rows = rows; last_id = last_id; visible_cache = none; whole_cache = none },
          q,
        ) in
        let fresh =
          after_calls-IsFresh calls
            (record { rows = rows; last_id = last_id; visible_cache = none; whole_cache = none }, q)
            (tt, tt) in
        listed_or_cached-listing now include_completed a.0
          (cache_of fullmatch compact include_completed a.0)
          (cache_of-CachedAs include_completed a.0 fresh)
