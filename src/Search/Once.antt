-- ===== src/Search/Once.antt =====
-- The search of all active subscriptions: which are searched, and which are marked as checked.
use togo.Common.{
  ℕ, zero, suc, ◌≤◌, ◌≡◌, refl, str_eq, sym, ap, ◌∙◌, String, Bool, true, ◌||◌, Option, none, some,
  List, [], ◌∷◌, ◌++◌, if◌then◌else◌, arith, inl, inr, Bool-cases, ◌==◌, take, drop,
  take-append-drop, length-drop, max, length, any, map, update_where,
}
use togo.Scheduling.Recent.{Listed}
use togo.Search.Waves.{
  Row, Searched, Outcome, Checked, found_new, timed_out, search_raised, outcome, fromkeys,
  checked_row, mark_all, flush_pending_checked, outcomes_then, prefer_incremental_telegram,
  search_one, search_waves, pending_ids, Totals, subscriptions_for, all_done,
  search_all_active_subscriptions,
}

pub map-append :
    {A B : Type 0} (f : A → B) (xs ys : List A) → map f (xs ++ ys) ≡ map f xs ++ map f ys
map-append f [] ys = refl
map-append f (x ∷ xs) ys = ap (λ zs. f x ∷ zs) (map-append f xs ys)

map-∘ :
    {A B C : Type 0} (g : B → C) (f : A → B) (h : A → C) (xs : List A)
    → ((a : A) → g (f a) ≡ h a)
    → map g (map f xs) ≡ map h xs
map-∘ g f h [] same = refl
map-∘ g f h (x ∷ xs) same = rw (same x, map-∘ g f h xs same) refl

-- What is read from the outcomes, if all searches are over.
abbrev read_from : (List Outcome → List ℕ) → Option (List Outcome) → Option (List ℕ)
read_from f none = none
read_from f (some outcomes) = some (f outcomes)

outcome-id : (i : ℕ) (a : Searched) → (outcome i a).id ≡ i
outcome-id i (found_new n) = refl
outcome-id i timed_out = refl
outcome-id i search_raised = refl

outcome-noted : (i : ℕ) (a : Searched) → (outcome i a).noted ≡ true
outcome-noted i (found_new n) = refl
outcome-noted i timed_out = refl
outcome-noted i search_raised = refl

-- What is read from a wave before that of the others.
abbrev ids_then : List ℕ → Option (List ℕ) → Option (List ℕ)
ids_then ids none = none
ids_then ids (some others) = some (ids ++ others)

read_from-outcomes_then :
    (f : List Outcome → List ℕ) (outcomes : List Outcome) (rest : Option (List Outcome))
    → ((xs ys : List Outcome) → f (xs ++ ys) ≡ f xs ++ f ys)
    → read_from f (outcomes_then outcomes rest) ≡ ids_then (f outcomes) (read_from f rest)
read_from-outcomes_then f outcomes none split = refl
read_from-outcomes_then f outcomes (some rest) split = ap some (split outcomes rest)

pending_ids-append :
    (xs ys : List Outcome) → pending_ids (xs ++ ys) ≡ pending_ids xs ++ pending_ids ys
pending_ids-append [] ys = refl
pending_ids-append (o ∷ xs) ys = elim (Bool-cases o.noted) [
  | inl e ↦ rw (e, pending_ids-append xs ys) refl
  | inr e ↦ rw (e, pending_ids-append xs ys) refl
]

pub too_few : (s : Listed) (listed : List Listed) → length (s ∷ listed) ≤ 0 → ⊥
too_few s listed h = omega (arith, h)

module _ (fullmatch : String → Option (ℕ × ℕ)) (current : ℕ → Listed → Row)
    (search : ℕ → Bool → Row → Searched) (sizes : ℕ → ℕ) where
  search_one-id :
      (wave : ℕ) (s : Listed) → (search_one fullmatch current search sizes wave s).id ≡ s.base.id
  unfolding search_one
  search_one-id wave s = elim (Bool-cases (str_eq (current wave s).tracked.status "active")) [
    | inl e ↦ rw e (
        outcome-id s.base.id (
          search wave (prefer_incremental_telegram fullmatch current search sizes (current wave s))
            (current wave s)))
    | inr e ↦ rw e refl
  ]

  -- What is read wave by wave is what is read from all subscriptions in their order.
  search_waves-enough :
      (f : List Outcome → List ℕ) (turns wave : ℕ) (listed : List Listed)
      → ((xs ys : List Outcome) → f (xs ++ ys) ≡ f xs ++ f ys)
      → ((wave : ℕ) (xs : List Listed)
          → f (map (search_one fullmatch current search sizes wave) xs) ≡ map (λ s. s.base.id) xs)
      → f [] ≡ []
      → length listed ≤ turns
      → read_from f (search_waves fullmatch current search sizes turns wave listed)
        ≡ some (map (λ s. s.base.id) listed)
  unfolding search_waves
  search_waves-enough f turns wave [] split reads empty h = ap some empty
  search_waves-enough f zero wave (s ∷ listed) split reads empty h = absurd (too_few s listed h)
  search_waves-enough f (suc turns) wave (s ∷ listed) split reads empty h =
      let size = max 1 (sizes wave) in
      let fewer : length (drop size (s ∷ listed)) ≤ turns =
        omega (arith, h, length-drop size (s ∷ listed)) in
      rw
        (
          read_from-outcomes_then f
              (map (search_one fullmatch current search sizes wave) (take size (s ∷ listed)))
              (search_waves fullmatch current search sizes turns (suc wave)
                (drop size (s ∷ listed)))
              split,
          search_waves-enough f turns (suc wave) (drop size (s ∷ listed)) split reads empty fewer,
          reads wave (take size (s ∷ listed)),
          sym (map-append (λ s. s.base.id) (take size (s ∷ listed)) (drop size (s ∷ listed))),
          take-append-drop size (s ∷ listed),
        )
        refl

  module _
      (active : (wave : ℕ) (s : Listed)
        → str_eq (current wave s).tracked.status "active" ≡ true) where
    search_one-noted :
        (wave : ℕ) (s : Listed) → (search_one fullmatch current search sizes wave s).noted ≡ true
    unfolding search_one
    search_one-noted wave s = rw (active wave s) (
        outcome-noted s.base.id (
          search wave (prefer_incremental_telegram fullmatch current search sizes (current wave s))
            (current wave s)))

    pending_ids-wave :
        (wave : ℕ) (xs : List Listed)
        → pending_ids (map (search_one fullmatch current search sizes wave) xs)
          ≡ map (λ s. s.base.id) xs
    pending_ids-wave wave [] = refl
    pending_ids-wave wave (s ∷ xs) =
        rw (search_one-noted wave s, search_one-id wave s, pending_ids-wave wave xs) refl

    waves-pending_ids :
        (listed : List Listed)
        → read_from pending_ids
            (search_waves fullmatch current search sizes (length listed) 0 listed)
          ≡ some (map (λ s. s.base.id) listed)
    waves-pending_ids listed =
        search_waves-enough pending_ids (length listed) 0 listed pending_ids-append pending_ids-wave
          refl (omega arith)

-- The rows after one pass that marks those of some ids.
abbrev pub checked_by : ℕ → List ℕ → Checked → Checked
checked_by now ids r = if any (λ i. r.id == i) ids then checked_row now r else r

update_where-map :
    (p : Checked → Bool) (f : Checked → Checked) (rows : List Checked)
    → update_where p f rows ≡ map (λ r. if p r then f r else r) rows
update_where-map p f [] = refl
update_where-map p f (r ∷ rows) =
    ap (λ qs. (if p r then f r else r) ∷ qs) (update_where-map p f rows)

checked_by-none : (now : ℕ) (rows : List Checked) → map (checked_by now []) rows ≡ rows
checked_by-none now [] = refl
checked_by-none now (r ∷ rows) = ap (λ qs. r ∷ qs) (checked_by-none now rows)

checked_by-again :
    (now i : ℕ) (ids : List ℕ) (r : Checked)
    → checked_by now ids (if r.id == i then checked_row now r else r) ≡ checked_by now (i ∷ ids) r
checked_by-again now i ids r = elim (Bool-cases (r.id == i)) [
  | inl e ↦ elim (Bool-cases (any (λ j. r.id == j) ids)) [
    | inl f ↦ rw (e, f) refl
    | inr f ↦ rw (e, f) refl
  ]
  | inr e ↦ rw e refl
]

mark_all-eq :
    (now : ℕ) (ids : List ℕ) (rows : List Checked)
    → mark_all now ids rows ≡ map (checked_by now ids) rows
mark_all-eq now [] rows = sym (checked_by-none now rows)
mark_all-eq now (i ∷ ids) rows =
    mark_all-eq now ids (update_where (λ r. r.id == i) (checked_row now) rows)
    ∙ ap (map (checked_by now ids)) (update_where-map (λ r. r.id == i) (checked_row now) rows)
    ∙ map-∘ (checked_by now ids) (λ r. if r.id == i then checked_row now r else r)
        (checked_by now (i ∷ ids)) rows (checked_by-again now i ids)

any-equal :
    (n i : ℕ) (seen : List ℕ)
    → any (λ j. j == i) seen ≡ true
    → (n == i) ≡ true
    → any (λ j. n == j) seen ≡ true
any-equal n i [] h k = cc
any-equal n i (j ∷ seen) h k = ground (arith, h, k, any-equal n i seen)

any-fromkeys :
    (n : ℕ) (seen ids : List ℕ)
    → (any (λ j. n == j) (fromkeys seen ids) || any (λ j. n == j) seen)
      ≡ (any (λ j. n == j) ids || any (λ j. n == j) seen)
any-fromkeys n seen [] = refl
any-fromkeys n seen (i ∷ ids) = ground (arith, any-fromkeys n (i ∷ seen) ids, any-equal n i seen)

any-fromkeys_all :
    (n : ℕ) (ids : List ℕ) → any (λ j. n == j) (fromkeys [] ids) ≡ any (λ j. n == j) ids
any-fromkeys_all n ids = ground (arith, any-fromkeys n [] ids)

checked_by-fromkeys :
    (now : ℕ) (ids : List ℕ) (r : Checked)
    → checked_by now (fromkeys [] ids) r ≡ checked_by now ids r
checked_by-fromkeys now ids r = rw (any-fromkeys_all r.id ids) refl

map-ext : {A B : Type 0} (f g : A → B) (xs : List A) → ((a : A) → f a ≡ g a) → map f xs ≡ map g xs
map-ext f g [] same = refl
map-ext f g (x ∷ xs) same = rw (same x, map-ext f g xs same) refl

-- The updates by id, for the noted ids without repetitions, are one pass over the table that marks the
-- rows whose id was noted.
pub flush_pending_checked-eq :
    (now : ℕ) (pending : List ℕ) (rows : List Checked)
    → flush_pending_checked now pending rows ≡ map (checked_by now pending) rows
unfolding flush_pending_checked
flush_pending_checked-eq now pending rows =
    mark_all-eq now (fromkeys [] pending) rows
    ∙ map-ext (checked_by now (fromkeys [] pending)) (checked_by now pending) rows
        (checked_by-fromkeys now pending)

-- The rows that are left, if the search of all ended.
abbrev pub rows_of : Option (Totals × List Checked) → Option (List Checked)
rows_of none = none
rows_of (some (counts, rows)) = some rows

abbrev flushed : ℕ → List Checked → Option (List ℕ) → Option (List Checked)
flushed now rows none = none
flushed now rows (some ids) = some (flush_pending_checked now ids rows)

rows_of-all_done :
    (fullmatch : String → Option (ℕ × ℕ)) (current : ℕ → Listed → Row)
    (search : ℕ → Bool → Row → Searched) (sizes : ℕ → ℕ) (now : ℕ) (rows : List Checked)
    (o : Option (List Outcome))
    → rows_of (all_done fullmatch current search sizes now rows o)
      ≡ flushed now rows (read_from pending_ids o)
rows_of-all_done fullmatch current search sizes now rows none = refl
rows_of-all_done fullmatch current search sizes now rows (some outcomes) = refl

-- When every subscription is still active as its turn comes, a search of all ends, however each search
-- ends, and marks exactly the rows of the subscriptions it was for as checked.
pub search_all_active_subscriptions-rows :
    (fullmatch : String → Option (ℕ × ℕ)) (current : ℕ → Listed → Row)
    (search : ℕ → Bool → Row → Searched) (sizes : ℕ → ℕ) (now : ℕ) (force : Bool)
    (listed : List Listed) (rows : List Checked)
    → ((wave : ℕ) (s : Listed) → str_eq (current wave s).tracked.status "active" ≡ true)
    → rows_of (search_all_active_subscriptions fullmatch current search sizes now force listed rows)
      ≡ some (
          map
            (checked_by now (
              map
                (λ s. s.base.id)
                (subscriptions_for fullmatch current search sizes now force listed)))
            rows)
unfolding search_all_active_subscriptions
search_all_active_subscriptions-rows fullmatch current search sizes now force listed rows active =
    let taken = subscriptions_for fullmatch current search sizes now force listed in
    rows_of-all_done fullmatch current search sizes now rows
      (search_waves fullmatch current search sizes (length taken) 0 taken)
    ∙ ap (flushed now rows) (waves-pending_ids fullmatch current search sizes active taken)
    ∙ ap some (flush_pending_checked-eq now (map (λ s. s.base.id) taken) rows)
