-- ===== src/Search/Needed.antt =====
-- Which of the ed2k links are saved.
use togo.Common.{
  ℕ, ◌≡◌, refl, sym, ap, ◌∙◌, Bool, true, false, not, ◌&&◌, ◌||◌, Option, none, some, List, [], ◌∷◌,
  inl, inr, Bool-cases, all, any, select, arith, has, has-select, has-union, inter, pair_equal,
  str_eq,
}
use togo.Library.Needed.{is_none-inter}
use togo.Episodes.{Key, is_tv, is_none, missing_episode_keys}
use togo.Library.{Tracked}
use togo.Matching.{Texts, Result}
use togo.Saving.{Links, Seen, is_effective, episodes_of_title, existing_resource_rows}
use togo.Saving.Insert.{Step, reading, World}
use togo.Saving.Telegram.{
  Selection, with_created, with_duplicate, with_failed, then_put, checked_at,
}
use togo.Search.Ed2k.{
  Handled, passed_over, refused, known, saved_as_id, build_covered_episodes, needed_episodes,
  is_not_needed, handle_link, after_link, save_links, only_ed2k, attach_found, attach_ed2k,
}

parted : (a b c : Bool) → (a || not b && c) ≡ false → (a ≡ false) × ((b || not c) ≡ true)
parted true b c h = cc
parted false true c h = (refl, refl)
parted false false true h = cc
parted false false false h = (refl, refl)

both_true : {a b : Bool} → a ≡ true → b ≡ true → (a && b) ≡ true
both_true e f = rw (e, f) refl

both_parts : {a b : Bool} → (a && b) ≡ true → (a ≡ true) × (b ≡ true)
both_parts {a = true} h = (refl, h)
both_parts {a = false} h = cc

false_of_not : {a : Bool} → not a ≡ true → a ≡ false
false_of_not {a = true} h = cc
false_of_not {a = false} h = refl

any-select :
    (p : Key → Bool) (keys : List Key) → is_none (select p keys) ≡ false → any p keys ≡ true
any-select p [] h = cc
any-select p (k ∷ keys) h = ground (arith, h, any-select p keys)

any-ext : (p q : Key → Bool) (keys : List Key) → ((k : Key) → p k ≡ q k) → any q keys ≡ any p keys
any-ext p q [] same = refl
any-ext p q (k ∷ keys) same = rw (same k, any-ext p q keys same) refl

module _ (t : Texts) (l : Links) (raises : Step → Result → Bool) (s : Tracked) where
  -- No created result names only episodes that are not needed.
  abbrev pub creates_needed : List Key → Option Selection → Bool
  creates_needed needed none = true
  creates_needed needed (some a) =
      all (λ r. not (is_not_needed t l raises s needed r)) a.created_results

  put-creates :
      (f : Selection → Selection) (needed : List Key) (o : Option Selection)
      → ((a : Selection) → (f a).created_results ≡ a.created_results)
      → creates_needed needed o ≡ true
      → creates_needed needed (then_put f o) ≡ true
  put-creates f needed none same h = refl
  put-creates f needed (some a) same h = rw (same a) h

  created-creates :
      (needed : List Key) (item : ℕ) (r : Result) (o : Option Selection)
      → is_not_needed t l raises s needed r ≡ false
      → creates_needed needed o ≡ true
      → creates_needed needed (then_put (with_created item r) o) ≡ true
  created-creates needed item r none wanted h = refl
  created-creates needed item r (some a) wanted h = rw (wanted, h) refl

  after_link-creates :
      (needed : List Key) (r : Result) (rest : World → Option Selection)
      (answer : Option (Handled × World))
      → is_not_needed t l raises s needed r ≡ false
      → ((v : World) → creates_needed needed (rest v) ≡ true)
      → creates_needed needed (after_link t l raises r rest answer) ≡ true
  after_link-creates needed r rest none wanted next = refl
  after_link-creates needed r rest (some (passed_over, w)) wanted next = next w
  after_link-creates needed r rest (some (refused, w)) wanted next =
      put-creates with_failed needed (rest w) (λ a. refl) (next w)
  after_link-creates needed r rest (some (known, w)) wanted next =
      put-creates (with_duplicate r) needed (rest w) (λ a. refl) (next w)
  after_link-creates needed r rest (some (saved_as_id item, w)) wanted next =
      created-creates needed item r (rest w) wanted (next w)

  save_links-creates :
      (now : ℕ) (needed : List Key) (results : List Result) (w : World)
      → creates_needed needed (save_links t l raises now s needed results w) ≡ true
  unfolding save_links handle_link
  save_links-creates now needed [] w = refl
  save_links-creates now needed (r ∷ results) w =
      let rest = save_links t l raises now s needed results in
      let next = save_links-creates now needed results in
      elim (Bool-cases (is_not_needed t l raises s needed r)) [
        | inr wanted ↦
            after_link-creates needed r rest (handle_link t l raises now s needed r w) wanted next
        | inl unwanted ↦ elim (Bool-cases (raises reading r)) [
          | inl e ↦ rw e refl
          | inr e ↦ rw (e, unwanted) (next w)
        ]
      ]

  found-creates :
      (now : ℕ) (results : List Result) (w : World)
      → creates_needed
          (needed_episodes t l raises s (existing_resource_rows s.base.id w.rows))
          (attach_found t l raises now s results w)
        ≡ true
  found-creates now [] w = refl
  found-creates now (r ∷ found) w =
      let rows = existing_resource_rows s.base.id w.rows in
      let needed = needed_episodes t l raises s rows in
      let start = record w { seen = rows } in
      put-creates (checked_at t l raises now) needed
        (save_links t l raises now s needed (r ∷ found) start) (λ a. refl)
        (save_links-creates now needed (r ∷ found) start)

  attach_ed2k-creates_needed :
      (now : ℕ) (results : List Result) (w : World)
      → creates_needed
          (needed_episodes t l raises s (existing_resource_rows s.base.id w.rows))
          (attach_ed2k t l raises now s results w)
        ≡ true
  unfolding attach_ed2k
  attach_ed2k-creates_needed now results w = elim (Bool-cases (is_tv s.base.media_type)) [
    | inl series ↦ rw series (found-creates now (only_ed2k t l raises results) w)
    | inr film ↦ rw film refl
  ]

  abbrev missing : List Key
  missing = missing_episode_keys t.fullmatch s.base

  -- A row that counts, whose title names the episode.
  abbrev pub names : Key → Seen → Bool
  names k row =
      is_effective row.status
      && not (str_eq row.title "")
      && has k (episodes_of_title t l s row.title)

  abbrev pub is_unnamed : List Seen → Key → Bool
  is_unnamed rows k = not (any (names k) rows)

  -- An episode that the library misses and that no row names.
  abbrev pub is_wanted : List Seen → Key → Bool
  is_wanted rows k = has k missing && is_unnamed rows k

  -- Some episode is wanted, and the title of the result names such a one, or none at all.
  abbrev pub is_of_use : List Seen → Result → Bool
  is_of_use rows r =
      let episodes = episodes_of_title t l s r.title in
      any (is_unnamed rows) missing && (is_none episodes || any (is_wanted rows) episodes)

  has-build_covered_episodes :
      (rows : List Seen) (k : Key)
      → has k (build_covered_episodes t l raises s rows) ≡ any (names k) rows
  has-build_covered_episodes [] k = refl
  has-build_covered_episodes (row ∷ rows) k =
      elim (Bool-cases (is_effective row.status && not (str_eq row.title ""))) [
        | inl e ↦
            let own = episodes_of_title t l s row.title in
            rw (e, has-union k own (build_covered_episodes t l raises s rows))
              (ap (λ b. has k own || b) (has-build_covered_episodes rows k))
        | inr e ↦ rw e (has-build_covered_episodes rows k)
      ]

  has-needed_episodes :
      (rows : List Seen) (k : Key) → has k (needed_episodes t l raises s rows) ≡ is_wanted rows k
  has-needed_episodes rows k =
      has-select k (λ j. not (has j (build_covered_episodes t l raises s rows))) missing
      ∙ ap (λ b. has k missing && not b) (has-build_covered_episodes rows k)

  is_of_use-needed :
      (rows : List Seen) (r : Result)
      → is_not_needed t l raises s (needed_episodes t l raises s rows) r ≡ false
      → is_of_use rows r ≡ true
  is_of_use-needed rows r needed =
      let episodes = episodes_of_title t l s r.title in
      let covered = build_covered_episodes t l raises s rows in
      let keys = needed_episodes t l raises s rows in
      let (some_needed, fits) =
        parted (is_none keys) (is_none episodes) (is_none (inter episodes keys)) needed in
      both_true
        (any-ext (λ k. not (has k covered)) (is_unnamed rows) missing
            (λ k. ap not (has-build_covered_episodes rows k))
          ∙ any-select (λ k. not (has k covered)) missing some_needed)
        (ap (λ b. is_none episodes || b)
            (any-ext (λ k. has k keys) (is_wanted rows) episodes (has-needed_episodes rows)
              ∙ sym (is_none-inter episodes keys))
          ∙ fits)

  all_of_use :
      (rows : List Seen) (results : List Result)
      → all (λ r. not (is_not_needed t l raises s (needed_episodes t l raises s rows) r)) results
        ≡ true
      → all (is_of_use rows) results ≡ true
  all_of_use rows [] h = refl
  all_of_use rows (r ∷ results) h =
      let (this, others) = both_parts h in
      both_true (is_of_use-needed rows r (false_of_not this)) (all_of_use rows results others)

  -- What holds of each result that was saved, if the call ended.
  abbrev pub creates_all : (Result → Bool) → Option Selection → Bool
  creates_all p none = true
  creates_all p (some a) = all p a.created_results

  creates_of_use :
      (rows : List Seen) (o : Option Selection)
      → creates_needed (needed_episodes t l raises s rows) o ≡ true
      → creates_all (is_of_use rows) o ≡ true
  creates_of_use rows none h = refl
  creates_of_use rows (some a) h = all_of_use rows a.created_results h

  -- An ed2k link is saved only if, as the call begins, the library misses an episode that no effective
  -- resource of the subscription names in its title, and only if its own title names such an episode or
  -- none at all.
  pub attach_ed2k-creates_of_use :
      (now : ℕ) (results : List Result) (w : World)
      → creates_all
          (is_of_use (existing_resource_rows s.base.id w.rows))
          (attach_ed2k t l raises now s results w)
        ≡ true
  attach_ed2k-creates_of_use now results w =
      let rows = existing_resource_rows s.base.id w.rows in
      creates_of_use rows (attach_ed2k t l raises now s results w)
        (attach_ed2k-creates_needed now results w)
