-- ===== src/Saving/Rows.antt =====
-- What saving one result does to the table and to the list that the caller holds.
use mathlib.Core.List.{append-nil, reverse-cons}
use togo.Common.{
  ℕ, String, ◌≡◌, refl, sym, Bool, true, false, not, ◌&&◌, ◌||◌, Option, none, some, List, [], ◌∷◌,
  ◌++◌, arith, inl, inr, ◌⊎◌, Bool-cases, coalesce, ==_refl, any, is_some, map, select,
}
use togo.Delivery.{Resource}
use togo.Library.{Tracked}
use togo.Matching.{Texts, Result, named_episodes}
use togo.Saving.{
  Links, LinkKey, Seen, seen_of, of_subscription, existing_resource_rows, resource_dedupe_key,
  is_effective, has_key, key_reason, episodes_reason, title_reason, build_resource_row_index,
  resource_already_exists,
}
use togo.Saving.Insert.{
  source_counted, Step, parsing, reading, inserting, recording, World, new_row, inserted, same_row,
  is_refused, canonical, insert_resource, insert_resource_safely,
}

abbrev pub made : Option ℕ → (ℕ → Resource) → List Resource
made none row = []
made (some item) row = row item ∷ []

rows-counted :
    (now : ℕ) (o : Option (String × String)) (w : World) → (source_counted o now w).rows ≡ w.rows
rows-counted now none w = refl
rows-counted now (some p) w = refl

seen-counted :
    (now : ℕ) (o : Option (String × String)) (w : World) → (source_counted o now w).seen ≡ w.seen
seen-counted now none w = refl
seen-counted now (some p) w = refl

-- The newest row is the first that a SELECT reads.
pub existing-append :
    (i : ℕ) (rows : List Resource) (r : Resource)
    → of_subscription i r ≡ true
    → existing_resource_rows i (rows ++ r ∷ []) ≡ seen_of r ∷ existing_resource_rows i rows
existing-append i [] r mine = rw mine refl
existing-append i (x ∷ rows) r mine =
    let known = map seen_of (select (of_subscription i) rows) in
    let all_known = map seen_of (select (of_subscription i) (rows ++ r ∷ [])) in
    let rest = existing-append i rows r mine in
    elim (Bool-cases (of_subscription i x)) [
      | inl e ↦
          rw (e, reverse-cons (seen_of x) all_known, rest, reverse-cons (seen_of x) known) refl
      | inr e ↦ rw e rest
    ]

module _ (t : Texts) (l : Links) (raises : Step → Result → Bool) where
  abbrev pub key_open : Option LinkKey → List LinkKey → Bool
  key_open none keys = true
  key_open (some k) keys = not (has_key k keys)

  -- No two effective rows have links with the same key.
  abbrev pub has_unique_links : Tracked → List Seen → Bool
  has_unique_links s [] = true
  has_unique_links s (row ∷ rows) =
      (not (is_effective row.status)
        || key_open (resource_dedupe_key t l row.url) (build_resource_row_index t l s rows).by_key)
      && has_unique_links s rows

  -- A row was added for a result that passed the tests.
  abbrev pub Added : ℕ → Tracked → Result → World → Option ℕ × Result × World → Type 0
  Added now s r w a =
      let c = canonical t l raises r in
      (is_refused t l raises s c w.seen ≡ false)
      × (a.1 ≡ c)
      × (a.2.rows ≡ (inserted now s c w).rows)
      × (a.2.seen ≡ (inserted now s c w).seen)
      × ((a.0 ≡ some w.next_id) ⊎ (raises recording c ≡ true))

  abbrev pub Unchanged : World → Option ℕ × Result × World → Type 0
  Unchanged w a = (a.0 ≡ none) × (a.2 ≡ w)

  pub insert_resource_safely_cases :
      (now : ℕ) (s : Tracked) (r : Result) (w : World)
      → let a = insert_resource_safely t l raises now s r w in Unchanged w a ⊎ Added now s r w a
  unfolding insert_resource_safely insert_resource
  insert_resource_safely_cases now s r w =
      let c = canonical t l raises r in
      elim (Bool-cases (raises parsing r)) [
        | inl e ↦ rw e (inl (refl, refl))
        | inr e ↦ elim (Bool-cases (raises reading c)) [
          | inl f ↦ rw (e, f) (inl (refl, refl))
          | inr f ↦ elim (Bool-cases (is_refused t l raises s c w.seen)) [
            | inl g ↦ rw (e, f, g) (inl (refl, refl))
            | inr g ↦ elim (Bool-cases (raises inserting c)) [
              | inl h ↦ rw (e, f, g, h) (inl (refl, refl))
              | inr h ↦ elim (Bool-cases (any (same_row s.base.id c.url) w.rows)) [
                | inl i ↦ rw (e, f, g, h, i) (inl (refl, refl))
                | inr i ↦ elim (Bool-cases (raises recording c)) [
                  | inl j ↦ rw (e, f, g, h, i, j) (inr (refl, refl, refl, refl, inr refl))
                  | inr j ↦
                      rw (e, f, g, h, i, j)
                        (inr (refl, refl, rows-counted now _ _, seen-counted now _ _, inl refl))
                ]
              ]
            ]
          ]
        ]
      ]

  rows_of :
      (w : World) (a : Option ℕ × Result × World) (now : ℕ) (s : Tracked) (r : Result)
      → raises recording (canonical t l raises r) ≡ false
      → Unchanged w a ⊎ Added now s r w a
      → a.2.rows ≡ w.rows ++ made a.0 (new_row now s (canonical t l raises r))
  rows_of w a now s r counts (inl (nothing, same)) = rw (nothing, same) (sym (append-nil w.rows))
  rows_of w a now s r counts (inr (passed, same_result, rows, seen, inl item)) = rw item rows
  rows_of w a now s r counts (inr (passed, same_result, rows, seen, inr error)) = cc

  -- While the count of the source does not raise, a call adds to the table exactly the row of the result
  -- with its canonical link and the id that it returns, and nothing if it returns none, whichever test
  -- refuses the result and whatever else raises.
  pub insert_resource_safely-rows :
      (now : ℕ) (s : Tracked) (r : Result) (w : World)
      → raises recording (canonical t l raises r) ≡ false
      → let a = insert_resource_safely t l raises now s r w in
        a.2.rows ≡ w.rows ++ made a.0 (new_row now s (canonical t l raises r))
  insert_resource_safely-rows now s r w counts =
      let a = insert_resource_safely t l raises now s r w in
      rows_of w a now s r counts (insert_resource_safely_cases now s r w)

  in_step :
      (w : World) (a : Option ℕ × Result × World) (now : ℕ) (s : Tracked) (r : Result)
      → w.seen ≡ existing_resource_rows s.base.id w.rows
      → Unchanged w a ⊎ Added now s r w a
      → a.2.seen ≡ existing_resource_rows s.base.id a.2.rows
  in_step w a now s r before (inl (nothing, same)) = rw same before
  in_step w a now s r before (inr (passed, same_result, rows, seen, ended)) =
      rw
        (
          rows,
          seen,
          existing-append s.base.id w.rows (new_row now s (canonical t l raises r) w.next_id)
              (==_refl s.base.id),
          before,
        )
        refl

  -- A list of the rows that a caller read is, after each call, what a new SELECT would read, also where
  -- the call raises.
  pub insert_resource_safely-existing_resource_rows :
      (now : ℕ) (s : Tracked) (r : Result) (w : World)
      → w.seen ≡ existing_resource_rows s.base.id w.rows
      → let a = insert_resource_safely t l raises now s r w in
        a.2.seen ≡ existing_resource_rows s.base.id a.2.rows
  insert_resource_safely-existing_resource_rows now s r w before =
      let a = insert_resource_safely t l raises now s r w in
      in_step w a now s r before (insert_resource_safely_cases now s r w)

  key_reason_none :
      (o : Option LinkKey) (keys : List LinkKey)
      → is_some (key_reason t l o keys) ≡ false
      → key_open o keys ≡ true
  key_reason_none none keys h = refl
  key_reason_none (some k) keys h = ground (arith, h)

  is_some-coalesce_left :
      {A : Type 0} (a b : Option A) → is_some (coalesce a b) ≡ false → is_some a ≡ false
  is_some-coalesce_left none b h = refl
  is_some-coalesce_left (some a) b h = h

  refused_links :
      (s : Tracked) (r : Result) (seen : List Seen)
      → is_refused t l raises s r seen ≡ false
      → key_open (resource_dedupe_key t l r.url) (build_resource_row_index t l s seen).by_key ≡ true
  unfolding resource_already_exists
  refused_links s r seen passed =
      let index = build_resource_row_index t l s seen in
      let key = resource_dedupe_key t l r.url in
      let episodes = named_episodes t s r [] in
      let others =
        coalesce (episodes_reason t l episodes index.episode_sets)
          (title_reason t l (l.title_key r.title) episodes index.title_entries) in
      key_reason_none key index.by_key
        (is_some-coalesce_left (key_reason t l key index.by_key) others (ground (arith, passed)))

  unique_after :
      (w : World) (a : Option ℕ × Result × World) (now : ℕ) (s : Tracked) (r : Result)
      → has_unique_links s w.seen ≡ true
      → Unchanged w a ⊎ Added now s r w a
      → has_unique_links s a.2.seen ≡ true
  unique_after w a now s r before (inl (nothing, same)) = rw same before
  unique_after w a now s r before (inr (passed, same_result, rows, seen, ended)) =
      rw (seen, refused_links s (canonical t l raises r) w.seen passed, before) refl

  -- From a table of which no two effective rows of a subscription have links with the same key, a call
  -- makes such a table again, when the caller's list is what a SELECT reads.
  pub insert_resource_safely-has_unique_links :
      (now : ℕ) (s : Tracked) (r : Result) (w : World)
      → w.seen ≡ existing_resource_rows s.base.id w.rows
      → has_unique_links s (existing_resource_rows s.base.id w.rows) ≡ true
      → let a = insert_resource_safely t l raises now s r w in
        has_unique_links s (existing_resource_rows s.base.id a.2.rows) ≡ true
  insert_resource_safely-has_unique_links now s r w before unique =
      let a = insert_resource_safely t l raises now s r w in
      rw (sym (insert_resource_safely-existing_resource_rows now s r w before))
        (unique_after w a now s r (rw before unique) (insert_resource_safely_cases now s r w))
