-- ===== src/Episodes.antt =====
-- app/services/subscription/episode: the episodes that a series has, those that the library owns and
-- those that are missing. This file is keys.py, with the columns of a subscription that it reads.
-- Numbers are those from 0; a JSON text is given decoded. Parameter: `re.fullmatch` on a key's text.
pub mod Missing
pub mod Announced
pub mod Owned
pub mod Texts
pub mod Packs
pub mod Ranges
mod Examples
use togo.Common.{
  ℕ, zero, suc, ◌+◌, ◌-◌, String, Bool, true, false, not, ◌&&◌, ◌||◌, Option, none, some, List, [],
  ◌∷◌, if◌then◌else◌, ◌==◌, ltb, leb, all, union, diff, add, pair_equal,
}

-- A season and an episode.
abbrev pub Key : Type 0
Key = ℕ × ℕ

pub data Media : Type 0 where
  movie tv : Media

abbrev pub is_tv : Media → Bool
is_tv movie = false
is_tv tv = true

-- An item of `tmdb_seasons`: `none` stands for a value on which `int(…)` raises.
pub record RawSeason : Type 0 where
  pub season_number : Option ℕ
  pub episode_count : Option ℕ

-- An item of the JSON list `emby_episode_keys`.
pub data JsonItem : Type 0 where
  pair : Option ℕ → Option ℕ → JsonItem
  text : String → JsonItem
  other : JsonItem

pub record Subscription : Type 0 where
  pub id : ℕ
  pub media_type : Media
  pub tmdb_seasons : List RawSeason
  pub tmdb_total_count : ℕ
  pub emby_episodes : Option (List Key)
  pub emby_episode_keys : List JsonItem
  pub emby_count : ℕ
  pub in_library : Bool

abbrev pub season_or_one : ℕ → ℕ
season_or_one s = if s == 0 then 1 else s

abbrev pub episode_key : ℕ → Option ℕ → Option Key
episode_key season none = none
episode_key season (some episode) =
    if episode == 0 then none else some (season_or_one season, episode)

-- A field of a library item: absent, a number, or something on which `int(…)` raises.
pub data Field : Type 0 where
  absent junk : Field
  number : ℕ → Field

abbrev pub item_key : Option ℕ → Field → Option Key
item_key none episode = none
item_key (some season) absent = none
item_key (some season) junk = none
item_key (some season) (number n) = episode_key season (some n)

abbrev pub item_season : Field → Option ℕ
item_season absent = some 1
item_season junk = none
item_season (number n) = some n

abbrev pub episode_key_from_item : Field → Field → Option Key
episode_key_from_item season episode = item_key (item_season season) episode

-- `count` episodes of a season from `start` on.
abbrev pub season_keys : ℕ → ℕ → ℕ → List Key
season_keys season start zero = []
season_keys season start (suc n) = (season, start) ∷ season_keys season (start + 1) n

-- `end or start`, where 0 stands for None as well.
unfoldable pub expand_episode_range : ℕ → ℕ → ℕ → List Key
expand_episode_range season start end =
    let last = if end == 0 then start else end in
    if start == 0 || ltb last start || ltb 120 (last - start)
    then []
    else season_keys (season_or_one season) start (last - start + 1)

abbrev pub pair_key : Option ℕ → Option ℕ → Option Key
pair_key none b = none
pair_key (some a) none = none
pair_key (some a) (some b) = episode_key a (some b)

abbrev pub matched_key : Option (ℕ × ℕ) → Option Key
matched_key none = none
matched_key (some (a, b)) = episode_key a (some b)

abbrev pub episode_key_from_json : (String → Option (ℕ × ℕ)) → JsonItem → Option Key
episode_key_from_json fullmatch (pair a b) = pair_key a b
episode_key_from_json fullmatch (text s) = matched_key (fullmatch s)
episode_key_from_json fullmatch other = none

abbrev pub add_some : Option Key → List Key → List Key
add_some none keys = keys
add_some (some k) keys = add k keys

abbrev pub episode_keys_from_json : (String → Option (ℕ × ℕ)) → List JsonItem → List Key
episode_keys_from_json fullmatch [] = []
episode_keys_from_json fullmatch (i ∷ items) =
    add_some (episode_key_from_json fullmatch i) (episode_keys_from_json fullmatch items)

-- The numbers of a season that the loops keep.
abbrev pub valid_season : Option ℕ → Option ℕ → Option (ℕ × ℕ)
valid_season none c = none
valid_season (some s) none = none
valid_season (some s) (some c) = if s == 0 || c == 0 then none else some (s, c)

abbrev kept_season : Option (ℕ × ℕ) → List (ℕ × ℕ) → List (ℕ × ℕ)
kept_season none seasons = seasons
kept_season (some s) seasons = s ∷ seasons

abbrev pub tmdb_seasons_from_detail : List RawSeason → List (ℕ × ℕ)
tmdb_seasons_from_detail [] = []
tmdb_seasons_from_detail (s ∷ raw) =
    kept_season (valid_season s.season_number s.episode_count) (tmdb_seasons_from_detail raw)

abbrev with_season : Option (ℕ × ℕ) → List Key → List Key
with_season none keys = keys
with_season (some (s, c)) keys = union keys (season_keys s 1 c)

-- The loop over the seasons, with the keys that are there already.
abbrev pub keys_of_seasons : List RawSeason → List Key → List Key
keys_of_seasons [] keys = keys
keys_of_seasons (s ∷ raw) keys =
    keys_of_seasons raw (with_season (valid_season s.season_number s.episode_count) keys)

-- `a or b` on a set.
abbrev pub or_keys : List Key → List Key → List Key
or_keys [] keys = keys
or_keys (k ∷ ks) keys = k ∷ ks

unfoldable pub all_tmdb_episode_keys : Subscription → List Key
all_tmdb_episode_keys s =
    or_keys (keys_of_seasons s.tmdb_seasons []) (season_keys 1 1 s.tmdb_total_count)

abbrev pub is_none : List Key → Bool
is_none [] = true
is_none (k ∷ ks) = false

abbrev pub in_first_season : Key → Bool
in_first_season k = k.0 == 1

abbrev pub set_or : Option (List Key) → List Key → List Key
set_or none keys = keys
set_or (some set) keys = set

abbrev pub explicit_keys : (String → Option (ℕ × ℕ)) → Subscription → List Key
explicit_keys fullmatch s =
    set_or s.emby_episodes (episode_keys_from_json fullmatch s.emby_episode_keys)

-- The episodes that a bare count stands for.
abbrev pub counted_keys : Subscription → List Key
counted_keys s =
    let expected = all_tmdb_episode_keys s in
    if not (is_none expected) && not (all in_first_season expected)
    then []
    else season_keys 1 1 s.emby_count

unfoldable pub owned_episode_keys : (String → Option (ℕ × ℕ)) → Subscription → List Key
owned_episode_keys fullmatch s = or_keys (explicit_keys fullmatch s) (counted_keys s)

unfoldable pub missing_episode_keys : (String → Option (ℕ × ℕ)) → Subscription → List Key
missing_episode_keys fullmatch s =
    let expected = all_tmdb_episode_keys s in
    if not (is_tv s.media_type) || is_none expected
    then []
    else diff expected (owned_episode_keys fullmatch s)
