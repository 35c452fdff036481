-- ===== src/Episodes/Ranges.antt =====
-- summary.py: the episodes of a set as ranges for the page. A label is its season and its first and
-- last episode, or the number of the ranges that are left out; the texts are not modelled.
use mathlib.Core.List.{append_assoc}
use togo.Common.{
  ℕ, ◌+◌, ◌-◌, ◌≤◌, ◌≡◌, refl, Bool, false, ◌&&◌, ◌||◌, List, [], ◌∷◌, ◌++◌, arith, if◌then◌else◌,
  ◌==◌, ltb, leb, inl, inr, Bool-cases, length, length-append, length-take, take, has, set_of,
  has-append, has-set_of, pair_equal,
}
use togo.Episodes.{Key, season_keys}
use togo.Episodes.Missing.{has-season_keys}

pub record Span : Type 0 where
  pub season : ℕ
  pub first : ℕ
  pub last : ℕ

pub data Label : Type 0 where
  span : Span → Label
  more : ℕ → Label

-- `sorted(…)` of keys.
abbrev before : Key → Key → Bool
before (s, e) (t, f) = ltb s t || (s == t && leb e f)

abbrev insert_key : Key → List Key → List Key
insert_key k [] = k ∷ []
insert_key k (j ∷ keys) =
    let rest = insert_key k keys in if before k j then k ∷ j ∷ keys else j ∷ rest

abbrev sorted_keys : List Key → List Key
sorted_keys [] = []
sorted_keys (k ∷ keys) = insert_key k (sorted_keys keys)

-- `grouped.setdefault(season, []).append(episode)`
abbrev Numbers : Type 0
Numbers = List (ℕ × List ℕ)

abbrev append_episode : Numbers → Key → Numbers
append_episode [] k = (k.0, k.1 ∷ []) ∷ []
append_episode ((s, es) ∷ groups) k =
    let rest = append_episode groups k in
    if s == k.0 then (s, es ++ k.1 ∷ []) ∷ groups else (s, es) ∷ rest

abbrev grouped : List Key → Numbers → Numbers
grouped [] groups = groups
grouped (k ∷ keys) groups = grouped keys (append_episode groups k)

-- The loop over the episodes of a season, from the second one on.
abbrev runs : ℕ → ℕ → ℕ → List ℕ → List Span
runs season start previous [] = record { season = season; first = start; last = previous } ∷ []
runs season start previous (e ∷ es) =
    let longer = runs season start e es in
    let broken = runs season e e es in
    if e == previous + 1
    then longer
    else record { season = season; first = start; last = previous } ∷ broken

abbrev season_runs : ℕ → List ℕ → List Span
season_runs season [] = []
season_runs season (e ∷ es) = runs season e e es

abbrev all_runs : Numbers → List Span
all_runs [] = []
all_runs ((s, es) ∷ groups) = season_runs s es ++ all_runs groups

unfoldable pub episode_spans : List Key → List Span
episode_spans keys = all_runs (grouped (sorted_keys (set_of keys)) [])

abbrev labels_of : List Span → List Label
labels_of [] = []
labels_of (s ∷ spans) = span s ∷ labels_of spans

unfoldable pub episode_range_labels : ℕ → List Key → List Label
episode_range_labels limit keys =
    let spans = episode_spans keys in
    if ltb limit (length spans)
    then labels_of (take limit spans) ++ more (length spans - limit) ∷ []
    else labels_of spans

-- The keys that spans stand for.
abbrev pub keys_of_spans : List Span → List Key
keys_of_spans [] = []
keys_of_spans (s ∷ spans) =
    season_keys s.season s.first (s.last + 1 - s.first) ++ keys_of_spans spans

abbrev in_numbers : Key → List ℕ → Bool
in_numbers k [] = false
in_numbers k (e ∷ es) = e == k.1 || in_numbers k es

abbrev in_groups : Key → Numbers → Bool
in_groups k [] = false
in_groups k ((s, es) ∷ groups) = (s == k.0 && in_numbers k es) || in_groups k groups

has-insert_key : (k j : Key) (keys : List Key) → has k (insert_key j keys) ≡ has k (j ∷ keys)
has-insert_key k j [] = refl
has-insert_key k j (i ∷ keys) = ground (arith, has-insert_key k j keys)

has-sorted_keys : (k : Key) (keys : List Key) → has k (sorted_keys keys) ≡ has k keys
has-sorted_keys k [] = refl
has-sorted_keys k (j ∷ keys) =
    ground (arith, has-insert_key k j (sorted_keys keys), has-sorted_keys k keys)

in_numbers-append :
    (k : Key) (es : List ℕ) (e : ℕ) → in_numbers k (es ++ e ∷ []) ≡ (in_numbers k es || e == k.1)
in_numbers-append k [] e = ground arith
in_numbers-append k (f ∷ es) e = ground (arith, in_numbers-append k es e)

in_groups-append_episode :
    (k j : Key) (groups : Numbers)
    → in_groups k (append_episode groups j) ≡ (in_groups k groups || (j.0 == k.0 && j.1 == k.1))
in_groups-append_episode k j [] = ground arith
in_groups-append_episode k j ((s, es) ∷ groups) =
    ground (arith, in_groups-append_episode k j groups, in_numbers-append k es j.1)

in_groups-grouped :
    (k : Key) (keys : List Key) (groups : Numbers)
    → in_groups k (grouped keys groups) ≡ (in_groups k groups || has k keys)
in_groups-grouped k [] groups = ground arith
in_groups-grouped k (j ∷ keys) groups =
    ground (
      arith,
      in_groups-grouped k keys (append_episode groups j),
      in_groups-append_episode k j groups,
    )

has-runs :
    (k : Key) (season start previous : ℕ) (es : List ℕ)
    → start ≤ previous
    → has k (keys_of_spans (runs season start previous es))
      ≡ (season == k.0 && ((leb start k.1 && leb k.1 previous) || in_numbers k es))
has-runs k season start previous [] h =
    let own = season_keys season start (previous + 1 - start) in
    rw (has-append k own [], has-season_keys season start (previous + 1 - start) k) (ground arith)
has-runs k season start previous (e ∷ es) h =
    let own = season_keys season start (previous + 1 - start) in
    elim (Bool-cases (e == previous + 1)) [
      | inl next ↦ rw (next, has-runs k season start e es (ground arith)) (ground arith)
      | inr jump ↦
          rw
            (
              jump,
              has-append k own (keys_of_spans (runs season e e es)),
              has-season_keys season start (previous + 1 - start) k,
              has-runs k season e e es (omega arith),
            )
            (ground arith)
    ]

keys_of_spans-append :
    (a b : List Span) → keys_of_spans (a ++ b) ≡ keys_of_spans a ++ keys_of_spans b
keys_of_spans-append [] b = refl
keys_of_spans-append (s ∷ a) b =
    rw
      (
        keys_of_spans-append a b,
        append_assoc (season_keys s.season s.first (s.last + 1 - s.first)) (keys_of_spans a)
            (keys_of_spans b),
      )
      refl

has-season_runs :
    (k : Key) (season : ℕ) (es : List ℕ)
    → has k (keys_of_spans (season_runs season es)) ≡ (season == k.0 && in_numbers k es)
has-season_runs k season [] = ground arith
has-season_runs k season (e ∷ es) = rw (has-runs k season e e es (omega arith)) (ground arith)

has-all_runs :
    (k : Key) (groups : Numbers) → has k (keys_of_spans (all_runs groups)) ≡ in_groups k groups
has-all_runs k [] = refl
has-all_runs k ((s, es) ∷ groups) =
    rw
      (
        keys_of_spans-append (season_runs s es) (all_runs groups),
        has-append k (keys_of_spans (season_runs s es)) (keys_of_spans (all_runs groups)),
        has-season_runs k s es,
        has-all_runs k groups,
      )
      refl

-- The ranges of a set of episodes stand for exactly the episodes of the set.
pub has-episode_spans :
    (keys : List Key) (k : Key) → has k (keys_of_spans (episode_spans keys)) ≡ has k keys
unfolding episode_spans
has-episode_spans keys k =
    rw
      (
        has-all_runs k (grouped (sorted_keys (set_of keys)) []),
        in_groups-grouped k (sorted_keys (set_of keys)) [],
        has-sorted_keys k (set_of keys),
        has-set_of k keys,
      )
      refl

length-labels_of : (spans : List Span) → length (labels_of spans) ≡ length spans
length-labels_of [] = refl
length-labels_of (s ∷ spans) = omega (arith, length-labels_of spans)

-- At most one label more than the limit is shown.
pub length-episode_range_labels :
    (limit : ℕ) (keys : List Key) → length (episode_range_labels limit keys) ≤ limit + 1
unfolding episode_range_labels
length-episode_range_labels limit keys =
    let spans = episode_spans keys in
    ground (
      arith,
      length-labels_of spans,
      length-labels_of (take limit spans),
      length-take limit spans,
      length-append (labels_of (take limit spans)) (more (length spans - limit) ∷ []),
    )
