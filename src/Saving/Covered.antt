-- ===== src/Saving/Covered.antt =====
-- What the results that are saved after a search on Telegram add to one another.
use togo.Common.{
  ℕ, ◌≡◌, refl, ap, ◌∙◌, Bool, true, false, not, ◌&&◌, ◌||◌, Option, none, some, List, [], ◌∷◌,
  arith, if◌then◌else◌, inl, inr, ◌⊎◌, Bool-cases, is_some, union, subset, pair_equal,
}
use togo.Delivery.{Resource}
use togo.Episodes.{Key, is_none}
use togo.Library.{Tracked}
use togo.Matching.{Texts, Result}
use togo.Saving.{Links, resource_already_exists, existing_resource_rows}
use togo.Matching.Decision.{matching_results}
use togo.Saving.Insert.{Step, reading, World, canonical, insert_resource_safely}
use togo.Saving.Rows.{Unchanged, Added, insert_resource_safely_cases}
use togo.Saving.Fallback.{Candidate, Answer, numbered, fallback_result_candidates}
use togo.Saving.Telegram.{
  saved_as, Selection, then_put, with_created, with_duplicate, with_failed, ended, checked_at,
  save_telegram_result, missing_coverage, missing_already_covered, after_result, without_ed2k,
  save_in_order, attach_telegram_results,
}

module _ (t : Texts) (l : Links) (raises : Step → Result → Bool) (s : Tracked) where
  -- Each result that names missing episodes, in order, names one that is not covered yet.
  abbrev pub adds_to : List Key → List Result → Bool
  adds_to covered [] = true
  adds_to covered (r ∷ results) =
      let coverage = missing_coverage t l raises s r in
      (is_none covered || is_none coverage || not (subset coverage covered))
      && adds_to (union covered coverage) results

  abbrev pub selection_adds : List Key → Option Selection → Bool
  selection_adds covered none = true
  selection_adds covered (some a) = adds_to covered a.created_results

  put-adds :
      (covered : List Key) (item : ℕ) (q : Result) (o : Option Selection)
      → (is_none covered
          || is_none (missing_coverage t l raises s q)
          || not (subset (missing_coverage t l raises s q) covered))
        ≡ true
      → selection_adds (union covered (missing_coverage t l raises s q)) o ≡ true
      → selection_adds covered (then_put (with_created item q) o) ≡ true
  put-adds covered item q none adds h = refl
  put-adds covered item q (some a) adds h = rw (adds, h) refl

  same_created-adds :
      (covered : List Key) (r : Result) (o : Option Selection)
      → selection_adds covered o ≡ true
      → selection_adds covered (then_put (with_duplicate r) o) ≡ true
  same_created-adds covered r none h = refl
  same_created-adds covered r (some a) h = h

  failed-adds :
      (covered : List Key) (o : Option Selection)
      → selection_adds covered o ≡ true
      → selection_adds covered (then_put with_failed o) ≡ true
  failed-adds covered none h = refl
  failed-adds covered (some a) h = h

  checked-adds :
      (now : ℕ) (o : Option Selection)
      → selection_adds [] o ≡ true
      → selection_adds [] (then_put (checked_at t l raises now) o) ≡ true
  checked-adds now none h = refl
  checked-adds now (some a) h = h

  either :
      (b : Bool) (x y : Option Selection) (covered : List Key)
      → selection_adds covered x ≡ true
      → selection_adds covered y ≡ true
      → selection_adds covered (if b then x else y) ≡ true
  either true x y covered hx hy = hx
  either false x y covered hx hy = hy

  module _
      (same_coverage : (r : Result)
        → missing_coverage t l raises s (canonical t l raises r)
          ≡ missing_coverage t l raises s r) where
    saved-adds :
        (now : ℕ) (r : Result) (w : World) (covered : List Key)
        (rest : List Key → World → Option Selection) (answer : Option ℕ × Result × World)
        → Unchanged t l raises w answer ⊎ Added t l raises now s r w answer
        → (is_none covered
            || is_none (missing_coverage t l raises s r)
            || not (subset (missing_coverage t l raises s r) covered))
          ≡ true
        → ((more : List Key) (v : World) → selection_adds more (rest more v) ≡ true)
        → selection_adds covered (after_result t l raises s covered rest (some (saved_as answer)))
          ≡ true
    saved-adds now r w covered rest (none, q, v) done adds next =
        failed-adds covered (rest covered v) (next covered v)
    saved-adds now r w covered rest (some item, q, v) (inl (nothing, same)) adds next = cc
    saved-adds now r w covered rest (some item, q, v) (inr (passed, same_result, rows, seen, over))
          adds next =
        let now_covered = union covered (missing_coverage t l raises s q) in
        let same = ap (missing_coverage t l raises s) same_result ∙ same_coverage r in
        put-adds covered item q (if is_none now_covered then ended v else rest now_covered v)
          (rw same adds)
          (either (is_none now_covered) (ended v) (rest now_covered v) now_covered refl
            (next now_covered v))

    after_save-adds :
        (now : ℕ) (r : Result) (w : World) (covered : List Key)
        (rest : List Key → World → Option Selection)
        → (is_none covered
            || is_none (missing_coverage t l raises s r)
            || not (subset (missing_coverage t l raises s r) covered))
          ≡ true
        → ((more : List Key) (v : World) → selection_adds more (rest more v) ≡ true)
        → selection_adds covered
            (after_result t l raises s covered rest (save_telegram_result t l raises now s r w))
          ≡ true
    unfolding save_telegram_result
    after_save-adds now r w covered rest adds next = elim (Bool-cases (raises reading r)) [
      | inl e ↦ rw e refl
      | inr e ↦ elim (Bool-cases (is_some (resource_already_exists t l s r w.seen))) [
        | inl f ↦ rw (e, f) (same_created-adds covered r (rest covered w) (next covered w))
        | inr f ↦
            rw (e, f)
              (saved-adds now r w covered rest (insert_resource_safely t l raises now s r w)
                (insert_resource_safely_cases t l raises now s r w) adds next)
      ]
    ]

    save_in_order-adds :
        (now : ℕ) (candidates : List Candidate) (covered : List Key) (w : World)
        → selection_adds covered (save_in_order t l raises now s candidates covered w) ≡ true
    unfolding save_in_order
    save_in_order-adds now [] covered w = refl
    save_in_order-adds now ((i, r) ∷ candidates) covered w =
        let rest = save_in_order t l raises now s candidates in
        elim (Bool-cases
          (not (is_none covered) && missing_already_covered t l raises s r covered false)) [
            | inl skip ↦ rw skip (save_in_order-adds now candidates covered w)
            | inr take ↦ rw take (
                after_save-adds now r w covered rest (ground (arith, take))
                  (save_in_order-adds now candidates))
          ]

    -- When the canonical form of a link changes nothing about the missing episodes that a result names,
    -- each result that a search on Telegram saves and that names missing episodes names one that no
    -- result saved before it names.
    pub attach_telegram_results-adds :
        (deliver : ℕ → List Resource → Answer × List Resource) (now : ℕ) (results : List Result)
        (w : World)
        → selection_adds [] (attach_telegram_results t l raises deliver now s results w) ≡ true
    unfolding attach_telegram_results
    attach_telegram_results-adds deliver now results w =
        let raw_matched = matching_results t s (without_ed2k t l raises results) [] in
        let ordered = fallback_result_candidates t l raises deliver s (numbered 0 raw_matched) in
        let start = record w { seen = existing_resource_rows s.base.id w.rows } in
        checked-adds now (save_in_order t l raises now s ordered [] start)
          (save_in_order-adds now ordered [] start)
