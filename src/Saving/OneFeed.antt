-- ===== src/Saving/OneFeed.antt =====
-- How many results from feeds and magnet sites become resources of one subscription at once.
use togo.Common.{
  ℕ, ◌+◌, ◌≤◌, ◌≡◌, refl, sym, ap, ◌++◌, map, ◌∙◌, Bool, true, false, not, ◌&&◌, ◌||◌, Option, none,
  some, List, [], ◌∷◌, arith, if◌then◌else◌, inl, inr, ◌⊎◌, Bool-cases, is_some, count_where,
}
use mathlib.Core.List.{append-nil, append_assoc}
use togo.Delivery.{Resource}
use togo.Library.{Tracked}
use togo.Matching.{Texts, Result}
use togo.Saving.{Links, existing_resource_rows}
use togo.Saving.Insert.{
  Step, recording, new_row, canonical, World, insert_resource_safely, subscription_115_resources,
  fallback_candidate_blocked, is_fallback_source,
}
use togo.Saving.Rows.{
  made, insert_resource_safely-rows, Unchanged, Added, insert_resource_safely_cases,
}
use togo.Saving.Realtime.{
  Progress, Attachment, note_priority, note_115, note_attached, below, result_is_accepted,
  after_insert, attach_in_order, attach_results_for_subscription,
}

module _ (t : Texts) (l : Links) (raises : Step → Result → Bool) where
  abbrev pub fallbacks : Attachment → ℕ
  fallbacks a = count_where (λ made. is_fallback_source t l raises made.1) a.0

  abbrev room : Progress → ℕ
  room p = if p.fallback_attached then 0 else 1

  kept_by_priority :
      (b : Bool) (r : Result) (p : Progress)
      → (note_priority b r p).fallback_attached ≡ p.fallback_attached
  kept_by_priority b r p = elim (Bool-cases (b && not (is_some p.matched_priority))) [
    | inl e ↦ rw e refl
    | inr e ↦ rw e refl
  ]

  kept_by_115 :
      (r : Result) (p : Progress)
      → (note_115 t l raises r p).fallback_attached ≡ p.fallback_attached
  kept_by_115 r p = elim (Bool-cases (l.matches_115 r.url)) [
    | inl e ↦ rw e refl
    | inr e ↦ rw e refl
  ]

  abbrev one_if : Bool → ℕ
  one_if b = if b then 1 else 0

  room_is : (p : Progress) → room p ≡ one_if (not p.fallback_attached)
  room_is p = elim (Bool-cases p.fallback_attached) [ inl e ↦ rw e refl | inr e ↦ rw e refl ]

  -- One made of a feed takes the room that there was.
  room-note_attached :
      (b : Bool) (p : Progress)
      → (b && p.fallback_attached) ≡ false
      → (if b then 1 else 0) + room (note_attached t l raises b p) ≤ room p
  room-note_attached true p free = ground (arith, free)
  room-note_attached false p free = omega arith

  after_insert-fallbacks :
      (now : ℕ) (s : Tracked) (r : Result) (p : Progress) (w : World)
      (rest : Progress → World → Attachment) (answer : Option ℕ × Result × World)
      → Unchanged t l raises w answer ⊎ Added t l raises now s r w answer
      → (is_fallback_source t l raises r && p.fallback_attached) ≡ false
      → ((q : Progress) (v : World) → fallbacks (rest q v) ≤ room q)
      → fallbacks (after_insert t l raises (is_fallback_source t l raises r) p rest answer) ≤ room p
  after_insert-fallbacks now s r p w rest (none, q, v) done free few =
      let b = is_fallback_source t l raises r in
      omega (
        arith,
        few (note_priority b q p) v,
        ap (λ x. one_if (not x)) (kept_by_priority b q p),
        room_is p,
        room_is (note_priority b q p),
      )
  after_insert-fallbacks now s r p w rest (some item, q, v) (inl (nothing, same)) free few = cc
  after_insert-fallbacks now s r p w rest (some item, q, v)
        (inr (passed, same_result, rows, seen, over)) free few =
      let b = is_fallback_source t l raises r in
      let noted = note_priority b q (note_115 t l raises q p) in
      let same_source : is_fallback_source t l raises q ≡ b =
        ap (is_fallback_source t l raises) same_result in
      let kept = kept_by_priority b q (note_115 t l raises q p) ∙ kept_by_115 q p in
      omega (
        arith,
        ap one_if same_source,
        few (note_attached t l raises b noted) v,
        room-note_attached b noted (ap (λ x. b && x) kept ∙ free),
        ap (λ x. one_if (not x)) kept,
        room_is p,
        room_is noted,
      )

  attach_in_order-fallbacks :
      (now : ℕ) (s : Tracked) (results : List Result) (p : Progress) (w : World)
      → fallbacks (attach_in_order t l raises now s results p w) ≤ room p
  unfolding attach_in_order
  attach_in_order-fallbacks now s [] p w = omega arith
  attach_in_order-fallbacks now s (r ∷ results) p w =
      let rest = attach_in_order t l raises now s results in
      let few = attach_in_order-fallbacks now s results in
      let b = is_fallback_source t l raises r in
      elim (Bool-cases (b && (p.fallback_attached || below r.priority p.matched_priority))) [
        | inl late ↦ rw late (few p w)
        | inr early ↦ elim (Bool-cases (result_is_accepted t l raises s r)) [
          | inr other ↦ rw (early, other) (few p w)
          | inl fits ↦
              elim (Bool-cases (fallback_candidate_blocked t l raises s r p.existing_115)) [
                | inl blocked ↦
                    rw (early, fits, blocked)
                      (omega (
                        arith,
                        few (note_priority b r p) w,
                        ap (λ x. one_if (not x)) (kept_by_priority b r p),
                        room_is p,
                        room_is (note_priority b r p),
                      ))
                | inr open_one ↦
                    rw (early, fits, open_one)
                      (after_insert-fallbacks now s r p w rest
                        (insert_resource_safely t l raises now s r w)
                        (insert_resource_safely_cases t l raises now s r w) (ground (arith, early))
                        few)
              ]
        ]
      ]

  attach_results-fallbacks :
      (now : ℕ) (s : Tracked) (results : List Result) (w : World)
      → fallbacks (attach_results_for_subscription t l raises now s results w) ≤ 1
  unfolding attach_results_for_subscription
  attach_results-fallbacks now s results w =
      attach_in_order-fallbacks now s results
        (record {
          matched_priority = none;
          fallback_attached = false;
          existing_115 = subscription_115_resources t l raises s.base.id w.rows;
        })
        (record w { seen = existing_resource_rows s.base.id w.rows })

  -- The rows of the resources that were made.
  abbrev pub rows_made : ℕ → Tracked → List (ℕ × Result) → List Resource
  rows_made now s items = map (λ m. new_row now s m.1 m.0) items

  module _ (counts : (r : Result) → raises recording r ≡ false) where
    -- A result that is made is the canonical one.
    result_is :
        (now : ℕ) (s : Tracked) (r : Result) (w : World) (answer : Option ℕ × Result × World)
        → Unchanged t l raises w answer ⊎ Added t l raises now s r w answer
        → is_some answer.0 ≡ true
        → answer.1 ≡ canonical t l raises r
    result_is now s r w (none, q, v) over some_made = cc
    result_is now s r w (some item, q, v) (inl (nothing, same)) some_made = cc
    result_is now s r w (some item, q, v) (inr (passed, same_result, rows, seen, over)) some_made =
        same_result

    after_insert-rows :
        (now : ℕ) (s : Tracked) (r : Result) (b : Bool) (p : Progress) (w : World)
        (rest : Progress → World → Attachment) (answer : Option ℕ × Result × World)
        → answer.2.rows ≡ w.rows ++ made answer.0 (new_row now s (canonical t l raises r))
        → (is_some answer.0 ≡ true → answer.1 ≡ canonical t l raises r)
        → ((q : Progress) (v : World) → (rest q v).1.rows ≡ v.rows ++ rows_made now s (rest q v).0)
        → let a = after_insert t l raises b p rest answer in
          a.1.rows ≡ w.rows ++ rows_made now s a.0
    after_insert-rows now s r b p w rest (none, q, v) rows result next =
        let a = rest (note_priority b q p) v in
        next (note_priority b q p) v
        ∙ ap (λ rs. rs ++ rows_made now s a.0) (rows ∙ append-nil w.rows)
    after_insert-rows now s r b p w rest (some item, q, v) rows result next =
        let after = note_attached t l raises b (note_priority b q (note_115 t l raises q p)) in
        let a = rest after v in
        let row = new_row now s (canonical t l raises r) item in
        next after v
        ∙ ap (λ rs. rs ++ rows_made now s a.0) rows
        ∙ append_assoc w.rows (row ∷ []) (rows_made now s a.0)
        ∙ ap (λ c. w.rows ++ new_row now s c item ∷ rows_made now s a.0) (sym (result refl))

    attach_in_order-rows :
        (now : ℕ) (s : Tracked) (results : List Result) (p : Progress) (w : World)
        → let a = attach_in_order t l raises now s results p w in
          a.1.rows ≡ w.rows ++ rows_made now s a.0
    unfolding attach_in_order
    attach_in_order-rows now s [] p w = sym (append-nil w.rows)
    attach_in_order-rows now s (r ∷ results) p w =
        let rest = attach_in_order t l raises now s results in
        let next = attach_in_order-rows now s results in
        let b = is_fallback_source t l raises r in
        elim (Bool-cases (b && (p.fallback_attached || below r.priority p.matched_priority))) [
          | inl late ↦ rw late (next p w)
          | inr early ↦ elim (Bool-cases (result_is_accepted t l raises s r)) [
            | inr other ↦ rw (early, other) (next p w)
            | inl fits ↦
                elim (Bool-cases (fallback_candidate_blocked t l raises s r p.existing_115)) [
                  | inl blocked ↦ rw (early, fits, blocked) (next (note_priority b r p) w)
                  | inr open_one ↦
                      rw (early, fits, open_one)
                        (after_insert-rows now s r b p w rest
                          (insert_resource_safely t l raises now s r w)
                          (insert_resource_safely-rows t l raises now s r w
                            (counts (canonical t l raises r)))
                          (result_is now s r w (insert_resource_safely t l raises now s r w)
                            (insert_resource_safely_cases t l raises now s r w))
                          next)
                ]
          ]
        ]

    attach_results-rows :
        (now : ℕ) (s : Tracked) (results : List Result) (w : World)
        → let a = attach_results_for_subscription t l raises now s results w in
          a.1.rows ≡ w.rows ++ rows_made now s a.0
    unfolding attach_results_for_subscription
    attach_results-rows now s results w =
        attach_in_order-rows now s results
          (record {
            matched_priority = none;
            fallback_attached = false;
            existing_115 = subscription_115_resources t l raises s.base.id w.rows;
          })
          (record w { seen = existing_resource_rows s.base.id w.rows })

    -- While the count of a source never raises, the results that come in at once add to the table
    -- exactly the rows of the resources that are reported, and at most one of these is from a feed or a
    -- magnet site.
    pub attach_results_for_subscription-rows :
        (now : ℕ) (s : Tracked) (results : List Result) (w : World)
        → let a = attach_results_for_subscription t l raises now s results w in
          (a.1.rows ≡ w.rows ++ rows_made now s a.0) × (fallbacks a ≤ 1)
    attach_results_for_subscription-rows now s results w =
        (attach_results-rows now s results w, attach_results-fallbacks now s results w)
