-- ===== src/Episodes/Packs.antt =====
-- packs.py: the episodes that the title of a pack stands for, within the episodes of a subscription.
pub mod Scope
use togo.Common.{
  ℕ, zero, suc, ◌+◌, String, Bool, true, false, not, ◌&&◌, ◌||◌, Option, none, some, List, [], ◌∷◌,
  if◌then◌else◌, ◌==◌, max, length, map, select, has, union, inter, add, set_of, ltb, ℕ_equal,
  pair_equal,
}
use togo.Episodes.{
  Key, Subscription, expand_episode_range, is_none, all_tmdb_episode_keys, missing_episode_keys,
}
use togo.Episodes.Texts.{
  Match, Regexes, searches, int_or, plain_episode_range, season_pack_word, full_series_pack,
  full_series_wide_pack, season_numbers_from_text, episode_counts_from_pack_text,
  episodes_from_text,
}

-- A dictionary from seasons to sets of keys.
abbrev pub Groups : Type 0
Groups = List (ℕ × List Key)

-- `grouped.setdefault(season, set()).add((season, episode))`
abbrev pub put_key : Key → Groups → Groups
put_key k [] = (k.0, k ∷ []) ∷ []
put_key k ((s, keys) ∷ groups) =
    let rest = put_key k groups in if s == k.0 then (s, add k keys) ∷ groups else (s, keys) ∷ rest

abbrev pub episode_keys_by_season : List Key → Groups
episode_keys_by_season [] = []
episode_keys_by_season (k ∷ keys) = put_key k (episode_keys_by_season keys)

-- `groups.get(season)`, with the empty set for a season that is not there.
abbrev pub group : ℕ → Groups → List Key
group season [] = []
group season ((s, keys) ∷ groups) = if s == season then keys else group season groups

abbrev pub all_groups : Groups → List Key
all_groups [] = []
all_groups ((s, keys) ∷ groups) = union keys (all_groups groups)

abbrev pub total_size : Groups → ℕ
total_size [] = 0
total_size ((s, keys) ∷ groups) = length keys + total_size groups

abbrev pub with_missing : ℕ → Groups → ℕ × List Key → Bool
with_missing count missing g = length g.1 == count && not (is_none (group g.0 missing))

abbrev pub with_count : ℕ → ℕ × List Key → Bool
with_count count g = length g.1 == count

-- The one group of a list, or the given set when there is another number of them.
abbrev pub only_group : Groups → List Key → List Key
only_group [] keys = keys
only_group (g ∷ []) keys = g.1
only_group (g ∷ h ∷ groups) keys = keys

unfoldable pub season_keys_for_count : Groups → Groups → ℕ → List Key
season_keys_for_count expected missing count =
    only_group (select (with_missing count missing) expected)
      (only_group (select (with_count count) expected) [])

-- `sorted(counts, reverse=True)`
abbrev insert_falling : ℕ → List ℕ → List ℕ
insert_falling n [] = n ∷ []
insert_falling n (m ∷ ms) =
    let rest = insert_falling n ms in if ltb n m then m ∷ rest else n ∷ m ∷ ms

abbrev pub falling : List ℕ → List ℕ
falling [] = []
falling (n ∷ ns) = insert_falling n (falling ns)

-- The loop over the counts, and what follows it.
abbrev pub first_inferred : Groups → Groups → List ℕ → List Key
first_inferred expected missing [] = only_group expected []
first_inferred expected missing (c ∷ counts) =
    let rest = first_inferred expected missing counts in
    let inferred = season_keys_for_count expected missing c in
    if is_none inferred then rest else inferred

abbrev pub keys_for_counts : Groups → List ℕ → List Key → List Key
keys_for_counts [] counts missing = []
keys_for_counts (g ∷ expected) counts missing =
    if has (total_size (g ∷ expected)) counts
    then all_groups (g ∷ expected)
    else first_inferred (g ∷ expected) (episode_keys_by_season missing) (falling counts)

unfoldable pub season_keys_for_counts : Subscription → List ℕ → List Key → List Key
season_keys_for_counts s [] missing = []
season_keys_for_counts s (c ∷ counts) missing =
    keys_for_counts (episode_keys_by_season (all_tmdb_episode_keys s)) (c ∷ counts) missing

abbrev pub highest : List ℕ → ℕ
highest [] = 0
highest (n ∷ ns) = max n (highest ns)

module _ (re : Regexes) (fullmatch : String → Option (ℕ × ℕ)) where
  open re use {finditer}

  abbrev pub range_loop : ℕ → List Match → List Key → List Key
  range_loop season [] keys = keys
  range_loop season (m ∷ ms) keys =
      range_loop season ms
        (union keys (expand_episode_range season (int_or re 0 (m "start")) (int_or re 0 (m "end"))))

  abbrev pub season_range_keys : String → ℕ → List Key
  season_range_keys text season = range_loop season (finditer plain_episode_range text) []

  abbrev pub counted_season : String → ℕ → List Key → List ℕ → List Key
  counted_season text season expected [] = []
  counted_season text season expected (c ∷ counts) =
      if is_none expected
      then []
      else if has (length expected) (c ∷ counts) || searches re season_pack_word text
      then expected
      else expand_episode_range season 1 (highest (c ∷ counts))

  abbrev pub season_count_keys : String → ℕ → Groups → List Key
  season_count_keys text season expected =
      counted_season text season (group season expected) (episode_counts_from_pack_text re text)

  -- The loop over the seasons.
  abbrev pub pack_loop : Bool → Groups → List ℕ → List Key → List Key
  pack_loop packed expected [] inferred = inferred
  pack_loop packed expected (s ∷ seasons) inferred =
      pack_loop packed expected seasons
        (if packed then union inferred (group s expected) else inferred)

  abbrev pub one_season_keys : String → Groups → List ℕ → List Key → List Key
  one_season_keys text expected [] inferred = inferred
  one_season_keys text expected (s ∷ []) inferred =
      union (union inferred (season_range_keys text s)) (season_count_keys text s expected)
  one_season_keys text expected (s ∷ t ∷ seasons) inferred = inferred

  unfoldable pub pack_keys_with_season_context :
      Subscription → String → List ℕ → List Key → List Key
  pack_keys_with_season_context s text seasons explicit =
      let expected = episode_keys_by_season (all_tmdb_episode_keys s) in
      one_season_keys text expected seasons
        (pack_loop (searches re season_pack_word text && is_none explicit) expected seasons [])

  abbrev pub pack_keys_of : Subscription → String → List ℕ → List Key
  pack_keys_of s text [] =
      let expected = all_tmdb_episode_keys s in
      if not (is_none (episodes_from_text re text))
      then []
      else if searches re full_series_wide_pack text || searches re full_series_pack text
      then expected
      else inter
          (season_keys_for_counts s (episode_counts_from_pack_text re text)
            (missing_episode_keys fullmatch s))
          expected
  pack_keys_of s text (n ∷ seasons) =
      inter (pack_keys_with_season_context s text (n ∷ seasons) (episodes_from_text re text))
        (all_tmdb_episode_keys s)

  -- `_pack_episode_keys_from_text`
  unfoldable pub pack_episode_keys_from_text : Subscription → String → List Key
  pack_episode_keys_from_text s text =
      if is_none (all_tmdb_episode_keys s)
      then []
      else pack_keys_of s text (season_numbers_from_text re text)

  -- The season that a text names, when it names one only, for keys of season 1.
  abbrev pub in_named_season : ℕ → Key → Key
  in_named_season season k = if k.0 == 1 then (season, k.1) else k

  abbrev pub moved_keys : List ℕ → List Key → List Key
  moved_keys [] keys = keys
  moved_keys (s ∷ []) keys = if s == 1 then keys else set_of (map (in_named_season s) keys)
  moved_keys (s ∷ t ∷ seasons) keys = keys

  unfoldable pub episode_keys_from_text_for_subscription : Option Subscription → String → List Key
  episode_keys_from_text_for_subscription none text = episodes_from_text re text
  episode_keys_from_text_for_subscription (some s) text =
      union (moved_keys (season_numbers_from_text re text) (episodes_from_text re text))
        (pack_episode_keys_from_text s text)
