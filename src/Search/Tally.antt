-- ===== src/Search/Tally.antt =====
-- search/all.py: the totals of the search of all active subscriptions.
use togo.Common.{
  ℕ, zero, suc, ◌+◌, ◌≤◌, ◌≡◌, refl, sym, ap, ◌∙◌, String, Bool, not, ◌&&◌, count_where, Option,
  none, some, List, [], ◌∷◌, if◌then◌else◌, arith, inl, inr, Bool-cases, take, drop,
  take-append-drop, length-drop, max, length, map, str_eq,
}
use togo.Episodes.{Media, movie, tv}
use togo.Scheduling.Recent.{Listed}
use togo.Search.{needs_resource_search}
use togo.Search.Once.{map-append, too_few}
use togo.Search.Waves.{
  Row, Searched, Outcome, Checked, found_new, timed_out, search_raised, Totals, totals, all_done,
  search_one, search_waves, incremental_for, outcome, subscriptions_for,
  prefer_incremental_telegram, search_all_active_subscriptions,
}

-- The totals, if the search of all ended.
abbrev pub totals_of : Option (Totals × List Checked) → Option Totals
totals_of none = none
totals_of (some (counts, rows)) = some counts

abbrev read_totals : Option (List Outcome) → Option Totals
read_totals none = none
read_totals (some outcomes) = some (totals outcomes)

-- The sum of a number for each of a list.
abbrev sum_over : (Listed → ℕ) → List Listed → ℕ
sum_over f [] = 0
sum_over f (s ∷ listed) = f s + sum_over f listed

abbrev found_in : Searched → ℕ
found_in (found_new n) = n
found_in timed_out = 0
found_in search_raised = 0

abbrev failed_in : Searched → ℕ
failed_in (found_new n) = 0
failed_in timed_out = 1
failed_in search_raised = 1

module _ (fullmatch : String → Option (ℕ × ℕ)) (row : Listed → Row)
    (search : Bool → Row → Searched) where
  abbrev was_reached : Media → Row → Bool
  was_reached movie r = r.tracked.base.in_library
  was_reached tv r = not (str_eq r.last_checked_text "")

  -- The search is only for what is new: nothing more is needed, and the subscription was served before.
  abbrev is_incremental : Row → Bool
  is_incremental r =
      not (needs_resource_search fullmatch r.tracked) && was_reached r.tracked.base.media_type r

  abbrev end_of : Listed → Searched
  end_of s = search (is_incremental (row s)) (row s)

  abbrev is_active : Listed → Bool
  is_active s = str_eq (row s).tracked.status "active"

  -- What the searches of the active ones of a list come to.
  abbrev pub tally : List Listed → Totals
  tally listed = record {
    searched = count_where is_active listed;
    count = sum_over (λ s. if is_active s then found_in (end_of s) else 0) listed;
    failed = sum_over (λ s. if is_active s then failed_in (end_of s) else 0) listed;
  }

  module _ (sizes : ℕ → ℕ) where
    abbrev searched_in : ℕ → Listed → Outcome
    searched_in wave s = search_one fullmatch (λ i. row) (λ i. search) sizes wave s

    incremental_for-eq :
        (m : Media) (r : Row)
        → incremental_for fullmatch (λ i. row) (λ i. search) sizes m r ≡ was_reached m r
    incremental_for-eq movie r = refl
    incremental_for-eq tv r = refl

    prefer_incremental_telegram-eq :
        (r : Row)
        → prefer_incremental_telegram fullmatch (λ i. row) (λ i. search) sizes r ≡ is_incremental r
    unfolding prefer_incremental_telegram
    prefer_incremental_telegram-eq r =
        elim (Bool-cases (needs_resource_search fullmatch r.tracked)) [
          | inl e ↦ rw e refl
          | inr e ↦ rw e (incremental_for-eq r.tracked.base.media_type r)
        ]

    any_wave : (wave : ℕ) (xs : List Listed) → map (searched_in wave) xs ≡ map (searched_in 0) xs
    unfolding search_one
    any_wave wave [] = refl
    any_wave wave (s ∷ xs) = ap (λ os. searched_in 0 s ∷ os) (any_wave wave xs)

    search_waves-map :
        (turns wave : ℕ) (listed : List Listed)
        → length listed ≤ turns
        → search_waves fullmatch (λ i. row) (λ i. search) sizes turns wave listed
          ≡ some (map (searched_in 0) listed)
    unfolding search_waves
    search_waves-map turns wave [] h = refl
    search_waves-map zero wave (s ∷ listed) h = absurd (too_few s listed h)
    search_waves-map (suc turns) wave (s ∷ listed) h =
        let size = max 1 (sizes wave) in
        let fewer : length (drop size (s ∷ listed)) ≤ turns =
          omega (arith, h, length-drop size (s ∷ listed)) in
        rw
          (
            search_waves-map turns (suc wave) (drop size (s ∷ listed)) fewer,
            any_wave wave (take size (s ∷ listed)),
            sym (map-append (searched_in 0) (take size (s ∷ listed)) (drop size (s ∷ listed))),
            take-append-drop size (s ∷ listed),
          )
          refl

    outcome-searched : (i : ℕ) (a : Searched) → (outcome i a).searched ≡ 1
    outcome-searched i (found_new n) = refl
    outcome-searched i timed_out = refl
    outcome-searched i search_raised = refl

    outcome-created : (i : ℕ) (a : Searched) → (outcome i a).created ≡ found_in a
    outcome-created i (found_new n) = refl
    outcome-created i timed_out = refl
    outcome-created i search_raised = refl

    outcome-failed : (i : ℕ) (a : Searched) → (outcome i a).failed ≡ failed_in a
    outcome-failed i (found_new n) = refl
    outcome-failed i timed_out = refl
    outcome-failed i search_raised = refl

    totals-map : (listed : List Listed) → totals (map (searched_in 0) listed) ≡ tally listed
    unfolding search_one
    totals-map [] = refl
    totals-map (s ∷ listed) = elim (Bool-cases (str_eq (row s).tracked.status "active")) [
      | inl e ↦
          rw
            (
              e,
              prefer_incremental_telegram-eq (row s),
              outcome-searched s.base.id (end_of s),
              outcome-created s.base.id (end_of s),
              outcome-failed s.base.id (end_of s),
              totals-map listed,
            )
            refl
      | inr e ↦ rw (e, totals-map listed) refl
    ]

    read_totals-all_done :
        (now : ℕ) (rows : List Checked) (o : Option (List Outcome))
        → totals_of (all_done fullmatch (λ i. row) (λ i. search) sizes now rows o) ≡ read_totals o
    read_totals-all_done now rows none = refl
    read_totals-all_done now rows (some outcomes) = refl

    -- When neither the row of a subscription nor the end of its search depends on the wave it comes in,
    -- a search of all ends, whatever the sizes of the waves are, and has searched each subscription it
    -- takes whose row is active, and no other, once: its totals are the number of these, the sum of
    -- what their searches found, and the number of those that timed out or raised, where a search is
    -- only for what is new if nothing more is needed and the subscription was served before.
    pub search_all_active_subscriptions-totals :
        (now : ℕ) (force : Bool) (listed : List Listed) (rows : List Checked)
        → totals_of (
            search_all_active_subscriptions fullmatch
              (λ i. row)
              (λ i. search)
              sizes
              now
              force
              listed
              rows)
          ≡ some
              (tally (subscriptions_for fullmatch (λ i. row) (λ i. search) sizes now force listed))
    unfolding search_all_active_subscriptions
    search_all_active_subscriptions-totals now force listed rows =
        let taken = subscriptions_for fullmatch (λ i. row) (λ i. search) sizes now force listed in
        read_totals-all_done now rows
          (search_waves fullmatch (λ i. row) (λ i. search) sizes (length taken) 0 taken)
        ∙ ap read_totals (search_waves-map (length taken) 0 taken (omega arith))
        ∙ ap some (totals-map taken)
