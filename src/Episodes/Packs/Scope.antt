-- ===== src/Episodes/Packs/Scope.antt =====
-- Packs stand for episodes of the subscription only, and for all of the seasons that they name.
use togo.Common.{
  ℕ, ◌≡◌, refl, String, true, false, ◌&&◌, ◌||◌, Option, List, [], ◌∷◌, any, arith, ◌==◌, inl, inr,
  Bool-cases, has, union, subset, subset_refl, subset-inter, has-add, has-union, has-inter,
  pair_equal, ℕ_equal, same_pair,
}
use togo.Episodes.{Key, Subscription, is_none, all_tmdb_episode_keys, missing_episode_keys}
use togo.Episodes.Texts.{
  Regexes, searches, season_pack_word, full_series_pack, full_series_wide_pack,
  season_numbers_from_text, episodes_from_text, episode_counts_from_pack_text,
}
use togo.Episodes.Packs.{
  Groups, put_key, episode_keys_by_season, group, pack_loop, one_season_keys,
  pack_keys_with_season_context, pack_keys_of, pack_episode_keys_from_text, season_keys_for_counts,
  season_range_keys, season_count_keys,
}

has-put_key :
    (k j : Key) (season : ℕ) (groups : Groups)
    → has k (group season (put_key j groups))
      ≡ ((same_pair j k && j.0 == season) || has k (group season groups))
has-put_key k j season [] = ground arith
has-put_key k j season ((s, keys) ∷ groups) =
    ground (arith, has-put_key k j season groups, has-add k j keys)

-- The groups by season have the keys of the set, each in the group of its season.
pub has-episode_keys_by_season :
    (k : Key) (season : ℕ) (keys : List Key)
    → has k (group season (episode_keys_by_season keys)) ≡ (has k keys && k.0 == season)
has-episode_keys_by_season k season [] = refl
has-episode_keys_by_season k season (j ∷ keys) = ground (
  arith,
  has-put_key k j season (episode_keys_by_season keys),
  has-episode_keys_by_season k season keys,
)

some_key : (k : Key) (keys : List Key) → has k keys ≡ true → is_none keys ≡ false
some_key k [] h = cc
some_key k (j ∷ keys) h = refl

module _ (re : Regexes) (fullmatch : String → Option (ℕ × ℕ)) (s : Subscription)
    (text : String) where
  scope_of :
      (seasons : List ℕ)
      → subset (pack_keys_of re fullmatch s text seasons) (all_tmdb_episode_keys s) ≡ true
  scope_of (n ∷ seasons) =
      subset-inter
        (pack_keys_with_season_context re fullmatch s text (n ∷ seasons)
          (episodes_from_text re text))
        (all_tmdb_episode_keys s)
  scope_of [] = elim (Bool-cases (is_none (episodes_from_text re text))) [
    | inr e ↦ rw e refl
    | inl e ↦
        elim (Bool-cases
          (searches re full_series_wide_pack text || searches re full_series_pack text)) [
            | inl full ↦ rw (e, full) (subset_refl (all_tmdb_episode_keys s))
            | inr part ↦
                rw (e, part)
                  (subset-inter
                    (season_keys_for_counts s (episode_counts_from_pack_text re text)
                      (missing_episode_keys fullmatch s))
                    (all_tmdb_episode_keys s))
          ]
  ]

  -- Whatever a text says, the episodes that it stands for as a pack are episodes of the subscription.
  pub pack_episode_keys_from_text-subset :
      subset (pack_episode_keys_from_text re fullmatch s text) (all_tmdb_episode_keys s) ≡ true
  unfolding pack_episode_keys_from_text
  pack_episode_keys_from_text-subset = elim (Bool-cases (is_none (all_tmdb_episode_keys s))) [
    | inl e ↦ rw e refl
    | inr e ↦ rw e (scope_of (season_numbers_from_text re text))
  ]

  has-pack_loop :
      (k : Key) (expected : Groups) (seasons : List ℕ) (inferred : List Key)
      → has k (pack_loop re fullmatch true expected seasons inferred)
        ≡ (has k inferred || any (λ n. has k (group n expected)) seasons)
  has-pack_loop k expected [] inferred = ground arith
  has-pack_loop k expected (n ∷ seasons) inferred = ground (
    arith,
    has-pack_loop k expected seasons (union inferred (group n expected)),
    has-union k inferred (group n expected),
  )

  has-one_season_keys :
      (k : Key) (expected : Groups) (seasons : List ℕ) (inferred : List Key)
      → has k inferred ≡ true
      → has k (one_season_keys re fullmatch text expected seasons inferred) ≡ true
  has-one_season_keys k expected [] inferred h = h
  has-one_season_keys k expected (n ∷ []) inferred h =
      let ranges = season_range_keys re fullmatch text n in
      let counts = season_count_keys re fullmatch text n expected in
      ground (arith, has-union k (union inferred ranges) counts, has-union k inferred ranges)
  has-one_season_keys k expected (n ∷ m ∷ seasons) inferred h = h

  named_season :
      (k : Key) (seasons : List ℕ) (expected : List Key)
      → has k expected ≡ true
      → has k.0 seasons ≡ true
      → any (λ m. has k (group m (episode_keys_by_season expected))) seasons ≡ true
  named_season k [] expected h m = cc
  named_season k (t ∷ seasons) expected h m =
      ground (arith, has-episode_keys_by_season k t expected, named_season k seasons expected h)

  in_context :
      (k : Key) (seasons : List ℕ)
      → searches re season_pack_word text ≡ true
      → is_none (episodes_from_text re text) ≡ true
      → has k.0 seasons ≡ true
      → has k (all_tmdb_episode_keys s) ≡ true
      → has k
          (pack_keys_with_season_context re fullmatch s text seasons (episodes_from_text re text))
        ≡ true
  unfolding pack_keys_with_season_context
  in_context k seasons word bare named here =
      let expected = episode_keys_by_season (all_tmdb_episode_keys s) in
      rw (word, bare)
        (has-one_season_keys k expected seasons (pack_loop re fullmatch true expected seasons []) (
          rw (has-pack_loop k expected seasons [])
            (named_season k seasons (all_tmdb_episode_keys s) here named)))

  -- A text with a word for a whole season and without episodes of its own stands for every episode
  -- that the subscription has in the seasons that the text names.
  pub pack_episode_keys_from_text-seasons :
      (k : Key)
      → searches re season_pack_word text ≡ true
      → is_none (episodes_from_text re text) ≡ true
      → has k.0 (season_numbers_from_text re text) ≡ true
      → has k (all_tmdb_episode_keys s) ≡ true
      → has k (pack_episode_keys_from_text re fullmatch s text) ≡ true
  unfolding pack_episode_keys_from_text
  pack_episode_keys_from_text-seasons k word bare named here =
      rw (some_key k (all_tmdb_episode_keys s) here) (go (season_numbers_from_text re text) refl)
    where
      go :
          (seasons : List ℕ)
          → season_numbers_from_text re text ≡ seasons
          → has k (pack_keys_of re fullmatch s text (season_numbers_from_text re text)) ≡ true
      go [] e = cc (rw e at named)
      go (n ∷ seasons) e =
          let keys =
            pack_keys_with_season_context re fullmatch s text (n ∷ seasons)
              (episodes_from_text re text) in
          rw
            (
              e,
              has-inter k keys (all_tmdb_episode_keys s),
              here,
              in_context k (n ∷ seasons) word bare (rw e at named) here,
            )
            refl
