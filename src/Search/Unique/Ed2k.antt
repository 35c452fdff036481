-- ===== src/Search/Unique/Ed2k.antt =====
-- What a search for ed2k links does to the rows of the table.
use togo.Common.{
  ℕ, ◌≡◌, refl, String, Bool, true, false, Option, none, some, List, [], ◌∷◌, arith, inl, inr,
  Bool-cases, any, pair_equal, ==_refl,
}
use togo.Episodes.{Key, is_tv}
use togo.Library.{Tracked}
use togo.Matching.{Texts, Result}
use togo.Saving.{
  Links, LinkKey, Seen, with_key, is_effective, resource_dedupe_key, existing_resource_rows,
  build_resource_row_index,
}
use togo.Saving.Insert.{Step, reading, inserting, World, inserted, new_row, same_row}
use togo.Saving.Rows.{key_open, existing-append}
use togo.Matching.Decision.{resource_allowed}
use togo.Saving.Telegram.{Selection, with_created, with_duplicate, with_failed}
use togo.Search.Ed2k.{
  Handled, passed_over, refused, known, saved_as_id, has_same_key, resource_url_exists,
  needed_episodes, is_not_needed, handle_link, after_link, save_links, only_ed2k, attach_found,
  attach_ed2k,
}
use togo.Search.Unique.{
  InOrder, HasUniqueLinks, Keeps, put-Keeps, world_after, checked-HasUniqueLinks,
}

module _ (t : Texts) (l : Links) (raises : Step → Result → Bool) (s : Tracked) where
  open-with_key :
      (o p : Option LinkKey) (keys : List LinkKey)
      → has_same_key o p ≡ false
      → key_open t l raises o keys ≡ true
      → key_open t l raises o (with_key p keys) ≡ true
  open-with_key none p keys other h = refl
  open-with_key (some k) none keys other h = h
  open-with_key (some k) (some j) keys other h = rw other h

  url_open :
      (url : String) (rows : List Seen)
      → resource_url_exists t l raises url rows ≡ false
      → key_open t l raises
          (resource_dedupe_key t l url)
          (build_resource_row_index t l s rows).by_key
        ≡ true
  url_open url [] h = key_open_none (resource_dedupe_key t l url)
    where
      key_open_none : (o : Option LinkKey) → key_open t l raises o [] ≡ true
      key_open_none none = refl
      key_open_none (some k) = refl
  url_open url (row ∷ rows) h = elim (Bool-cases (is_effective row.status)) [
    | inl e ↦ rw e (
        open-with_key (resource_dedupe_key t l url) (resource_dedupe_key t l row.url)
          (build_resource_row_index t l s rows).by_key (ground (arith, h, e))
          (url_open url rows (ground (arith, h))))
    | inr e ↦ rw e (url_open url rows (ground (arith, h)))
  ]

  inserted-InOrder :
      (now : ℕ) (r : Result) (w : World)
      → resource_url_exists t l raises r.url w.seen ≡ false
      → InOrder t l raises s w
      → InOrder t l raises s (inserted now s r w)
  inserted-InOrder now r w new (synced, unique) = (
    rw (existing-append s.base.id w.rows (new_row now s r w.next_id) (==_refl s.base.id), synced)
        refl,
    rw (url_open r.url w.seen new, unique) refl,
  )

  abbrev LinkKeeps : Option (Handled × World) → Type 0
  LinkKeeps none = Unit
  LinkKeeps (some (h, w)) = InOrder t l raises s w

  handle_link-Keeps :
      (now : ℕ) (needed : List Key) (r : Result) (w : World)
      → InOrder t l raises s w
      → LinkKeeps (handle_link t l raises now s needed r w)
  unfolding handle_link
  handle_link-Keeps now needed r w order = elim (Bool-cases (raises reading r)) [
    | inl a ↦ rw a tt
    | inr a ↦ elim (Bool-cases (is_not_needed t l raises s needed r)) [
      | inl b ↦ rw (a, b) order
      | inr b ↦ elim (Bool-cases (t.is_valid_download_link r.url)) [
        | inr c ↦ rw (a, b, c) order
        | inl c ↦ elim (Bool-cases (resource_allowed t (some s) r none)) [
          | inr d ↦ rw (a, b, c, d) order
          | inl d ↦ elim (Bool-cases (resource_url_exists t l raises r.url w.seen)) [
            | inl e ↦ rw (a, b, c, d, e) order
            | inr e ↦ elim (Bool-cases (raises inserting r)) [
              | inl f ↦ rw (a, b, c, d, e, f) tt
              | inr f ↦ elim (Bool-cases (any (same_row s.base.id r.url) w.rows)) [
                | inl g ↦ rw (a, b, c, d, e, f, g) order
                | inr g ↦ rw (a, b, c, d, e, f, g) (inserted-InOrder now r w e order)
              ]
            ]
          ]
        ]
      ]
    ]
  ]

  after_link-Keeps :
      (r : Result) (rest : World → Option Selection) (answer : Option (Handled × World))
      → LinkKeeps answer
      → ((v : World) → InOrder t l raises s v → Keeps t l raises s (rest v))
      → Keeps t l raises s (after_link t l raises r rest answer)
  after_link-Keeps r rest none order next = tt
  after_link-Keeps r rest (some (passed_over, w)) order next = next w order
  after_link-Keeps r rest (some (refused, w)) order next =
      put-Keeps t l raises s with_failed (rest w) (λ a. refl) (next w order)
  after_link-Keeps r rest (some (known, w)) order next =
      put-Keeps t l raises s (with_duplicate r) (rest w) (λ a. refl) (next w order)
  after_link-Keeps r rest (some (saved_as_id item, w)) order next =
      put-Keeps t l raises s (with_created item r) (rest w) (λ a. refl) (next w order)

  save_links-Keeps :
      (now : ℕ) (needed : List Key) (results : List Result) (w : World)
      → InOrder t l raises s w
      → Keeps t l raises s (save_links t l raises now s needed results w)
  unfolding save_links
  save_links-Keeps now needed [] w order = order
  save_links-Keeps now needed (r ∷ results) w order =
      after_link-Keeps r (save_links t l raises now s needed results)
        (handle_link t l raises now s needed r w) (handle_link-Keeps now needed r w order)
        (save_links-Keeps now needed results)

  -- A search for ed2k links leaves no two effective rows of the subscription whose links have the same
  -- key, if there were none before.
  pub attach_ed2k-HasUniqueLinks :
      (now : ℕ) (results : List Result) (w : World)
      → HasUniqueLinks t l raises s w
      → HasUniqueLinks t l raises s
          (world_after t l raises s w (attach_ed2k t l raises now s results w))
  unfolding attach_ed2k
  attach_ed2k-HasUniqueLinks now results w unique = elim (Bool-cases (is_tv s.base.media_type)) [
    | inr film ↦ rw film unique
    | inl series ↦ rw series (found (only_ed2k t l raises results))
  ]
    where
      found :
          (links : List Result)
          → HasUniqueLinks t l raises s
              (world_after t l raises s w (attach_found t l raises now s links w))
      found [] = unique
      found (r ∷ links) =
          let rows = existing_resource_rows s.base.id w.rows in
          let start = record w { seen = rows } in
          checked-HasUniqueLinks t l raises s now w
            (save_links t l raises now s (needed_episodes t l raises s rows) (r ∷ links) start)
            unique
            (save_links-Keeps now (needed_episodes t l raises s rows) (r ∷ links) start
              (refl, unique))
