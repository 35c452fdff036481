-- ===== src/Episodes/Owned.antt =====
-- keys.py: which episodes the library owns and which are missing, read off the columns.
use togo.Common.{
  ℕ, ◌≡◌, refl, sym, ap, ◌∙◌, String, Bool, true, false, not, ◌&&◌, ◌||◌, Option, none, some, List,
  [], ◌∷◌, arith, if◌then◌else◌, ◌==◌, leb, inl, inr, Bool-cases, all, any, has, has-add, add,
  pair_equal,
}
use togo.Episodes.{
  Key, JsonItem, pair, text, other, Subscription, is_tv, is_none, season_or_one,
  all_tmdb_episode_keys, in_first_season, episode_key_from_json, add_some, pair_key, matched_key,
  episode_keys_from_json, set_or, explicit_keys, counted_keys, owned_episode_keys,
  missing_episode_keys,
}
use togo.Episodes.Missing.{has-season_keys, has-missing_episode_keys}
use togo.Episodes.Announced.{
  is_announced, is_at_least, is_first_or_empty, is_counted, has-or_keys, has-all_tmdb_episode_keys,
  all-all_tmdb_episode_keys,
}

abbrev is_pair : Key → Option ℕ → Option ℕ → Bool
is_pair k none b = false
is_pair k (some a) none = false
is_pair k (some a) (some b) = leb 1 b && (if a == 0 then 1 else a) == k.0 && b == k.1

abbrev is_match : Key → Option (ℕ × ℕ) → Bool
is_match k none = false
is_match k (some (a, b)) = is_pair k (some a) (some b)

abbrev names : (String → Option (ℕ × ℕ)) → Key → JsonItem → Bool
names fullmatch k (pair a b) = is_pair k a b
names fullmatch k (text s) = is_match k (fullmatch s)
names fullmatch k other = false

abbrev has_episode : Option ℕ → Option ℕ → Bool
has_episode none b = false
has_episode (some a) b = is_at_least 1 b

abbrev matches_episode : Option (ℕ × ℕ) → Bool
matches_episode none = false
matches_episode (some (a, b)) = leb 1 b

abbrev is_key : (String → Option (ℕ × ℕ)) → JsonItem → Bool
is_key fullmatch (pair a b) = has_episode a b
is_key fullmatch (text s) = matches_episode (fullmatch s)
is_key fullmatch other = false

-- The library's set of episodes, or, without it, the JSON list, names the episode.
abbrev is_listed : (String → Option (ℕ × ℕ)) → Option (List Key) → List JsonItem → Key → Bool
is_listed fullmatch none items k = any (names fullmatch k) items
is_listed fullmatch (some set) items k = has k set

abbrev lists_any : (String → Option (ℕ × ℕ)) → Option (List Key) → List JsonItem → Bool
lists_any fullmatch none items = any (is_key fullmatch) items
lists_any fullmatch (some set) items = not (is_none set)

-- The episode is listed, or, if none is listed at all and all seasons but the first are empty, within
-- the count of the first.
abbrev pub is_owned : (String → Option (ℕ × ℕ)) → Subscription → Key → Bool
is_owned fullmatch s k =
    if lists_any fullmatch s.emby_episodes s.emby_episode_keys
    then is_listed fullmatch s.emby_episodes s.emby_episode_keys k
    else all is_first_or_empty s.tmdb_seasons && is_counted s.emby_count k

none-all : (keys : List Key) → is_none keys ≡ true → all in_first_season keys ≡ true
none-all [] h = refl
none-all (k ∷ keys) h = cc

has-counted_keys :
    (s : Subscription) (k : Key)
    → has k (counted_keys s) ≡ (all is_first_or_empty s.tmdb_seasons && is_counted s.emby_count k)
has-counted_keys s k =
    rw (sym (all-all_tmdb_episode_keys s))
      (elim (Bool-cases (
        not (is_none (all_tmdb_episode_keys s))
        && not (all in_first_season (all_tmdb_episode_keys s)))) [
          | inl e ↦ rw e (ground arith)
          | inr e ↦
              rw (e, has-season_keys 1 1 s.emby_count k)
                (ground (arith, none-all (all_tmdb_episode_keys s)))
        ])

has-add_pair :
    (k : Key) (a : ℕ) (b : Option ℕ) (keys : List Key)
    → has k (add_some (pair_key (some a) b) keys) ≡ (is_pair k (some a) b || has k keys)
has-add_pair k a none keys = refl
has-add_pair k a (some b) keys = elim (Bool-cases (b == 0)) [
  | inl e ↦ rw e (ground arith)
  | inr e ↦ rw (e, has-add k (season_or_one a, b) keys) (ground arith)
]

is_none-add : (k : Key) (keys : List Key) → is_none (add k keys) ≡ false
is_none-add k [] = refl
is_none-add k (x ∷ keys) = elim (Bool-cases (has k (x ∷ keys))) [
  | inl e ↦ rw e refl
  | inr e ↦ rw e refl
]

is_none-add_pair :
    (a : ℕ) (b : Option ℕ) (keys : List Key)
    → is_none (add_some (pair_key (some a) b) keys) ≡ (not (is_at_least 1 b) && is_none keys)
is_none-add_pair a none keys = refl
is_none-add_pair a (some b) keys = elim (Bool-cases (b == 0)) [
  | inl e ↦ rw e (ground arith)
  | inr e ↦ rw (e, is_none-add (season_or_one a, b) keys) (ground arith)
]

has-add_match :
    (k : Key) (m : Option (ℕ × ℕ)) (keys : List Key)
    → has k (add_some (matched_key m) keys) ≡ (is_match k m || has k keys)
has-add_match k none keys = refl
has-add_match k (some (a, b)) keys = has-add_pair k a (some b) keys

is_none-add_match :
    (m : Option (ℕ × ℕ)) (keys : List Key)
    → is_none (add_some (matched_key m) keys) ≡ (not (matches_episode m) && is_none keys)
is_none-add_match none keys = refl
is_none-add_match (some (a, b)) keys = is_none-add_pair a (some b) keys

module _ (fullmatch : String → Option (ℕ × ℕ)) where
  has-add_item :
      (k : Key) (i : JsonItem) (keys : List Key)
      → has k (add_some (episode_key_from_json fullmatch i) keys)
        ≡ (names fullmatch k i || has k keys)
  has-add_item k (pair none b) keys = refl
  has-add_item k (pair (some a) b) keys = has-add_pair k a b keys
  has-add_item k other keys = refl
  has-add_item k (text s) keys = has-add_match k (fullmatch s) keys

  is_none-add_item :
      (i : JsonItem) (keys : List Key)
      → is_none (add_some (episode_key_from_json fullmatch i) keys)
        ≡ (not (is_key fullmatch i) && is_none keys)
  is_none-add_item (pair none b) keys = refl
  is_none-add_item (pair (some a) b) keys = is_none-add_pair a b keys
  is_none-add_item other keys = refl
  is_none-add_item (text s) keys = is_none-add_match (fullmatch s) keys

  has-episode_keys_from_json :
      (k : Key) (items : List JsonItem)
      → has k (episode_keys_from_json fullmatch items) ≡ any (names fullmatch k) items
  has-episode_keys_from_json k [] = refl
  has-episode_keys_from_json k (i ∷ items) =
      has-add_item k i (episode_keys_from_json fullmatch items)
      ∙ ap (λ b. names fullmatch k i || b) (has-episode_keys_from_json k items)

  is_none-episode_keys_from_json :
      (items : List JsonItem)
      → is_none (episode_keys_from_json fullmatch items) ≡ not (any (is_key fullmatch) items)
  is_none-episode_keys_from_json [] = refl
  is_none-episode_keys_from_json (i ∷ items) = ground (
    arith,
    is_none-add_item i (episode_keys_from_json fullmatch items),
    is_none-episode_keys_from_json items,
  )

  has-explicit_keys :
      (k : Key) (set : Option (List Key)) (items : List JsonItem)
      → has k (set_or set (episode_keys_from_json fullmatch items))
        ≡ is_listed fullmatch set items k
  has-explicit_keys k none items = has-episode_keys_from_json k items
  has-explicit_keys k (some set) items = refl

  is_none-explicit_keys :
      (set : Option (List Key)) (items : List JsonItem)
      → is_none (set_or set (episode_keys_from_json fullmatch items))
        ≡ not (lists_any fullmatch set items)
  is_none-explicit_keys none items = is_none-episode_keys_from_json items
  is_none-explicit_keys (some set) items = ground arith

  has-owned_episode_keys :
      (s : Subscription) (k : Key) → has k (owned_episode_keys fullmatch s) ≡ is_owned fullmatch s k
  unfolding owned_episode_keys
  has-owned_episode_keys s k =
      has-or_keys k (explicit_keys fullmatch s) (counted_keys s)
      ∙ rw
          (
            has-counted_keys s k,
            has-explicit_keys k s.emby_episodes s.emby_episode_keys,
            is_none-explicit_keys s.emby_episodes s.emby_episode_keys,
          )
          (ground arith)

  -- An episode is missing exactly when the subscription is to a series, its seasons announce the
  -- episode or, if no season is filled in, it is in the first season within the total, and the library
  -- does not own it: neither its set of episodes, nor, without the set, its JSON list names it, and, if
  -- these name no episode at all, it is not in the first season within the library's count or another
  -- season is filled in.
  pub has-missing_episode_keys_of_columns :
      (s : Subscription) (k : Key)
      → has k (missing_episode_keys fullmatch s)
        ≡ (is_tv s.media_type && is_announced s k && not (is_owned fullmatch s k))
  has-missing_episode_keys_of_columns s k =
      has-missing_episode_keys fullmatch s k
      ∙ rw (has-all_tmdb_episode_keys s k, has-owned_episode_keys s k) refl
