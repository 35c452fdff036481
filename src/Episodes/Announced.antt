-- ===== src/Episodes/Announced.antt =====
-- keys.py: which episodes a series has, read off the columns of its subscription.
use togo.Common.{
  ℕ, zero, suc, ◌+◌, ◌≡◌, refl, ◌∙◌, Bool, true, false, not, ◌&&◌, ◌||◌, Option, none, some, List,
  [], ◌∷◌, ◌++◌, arith, if◌then◌else◌, ◌==◌, leb, inl, inr, Bool-cases, all, any, has, has-union,
  union, diff, pair_equal,
}
use togo.Episodes.{
  Key, RawSeason, Subscription, is_none, season_keys, valid_season, with_season, keys_of_seasons,
  or_keys, all_tmdb_episode_keys, in_first_season,
}
use togo.Episodes.Missing.{has-season_keys}

abbrev pub is_number : ℕ → Option ℕ → Bool
is_number n none = false
is_number n (some m) = m == n

abbrev pub is_at_least : ℕ → Option ℕ → Bool
is_at_least n none = false
is_at_least n (some m) = leb n m

-- An item with a season from 1 and a count from 1.
abbrev is_filled : RawSeason → Bool
is_filled r = is_at_least 1 r.season_number && is_at_least 1 r.episode_count

abbrev announces : Key → RawSeason → Bool
announces k r =
    leb 1 k.0 && is_number k.0 r.season_number && leb 1 k.1 && is_at_least k.1 r.episode_count

-- An episode of the first season, of which there are so many.
abbrev pub is_counted : ℕ → Key → Bool
is_counted count k = k.0 == 1 && leb 1 k.1 && leb k.1 count

-- The seasons tell which episodes there are, or, if none of them is filled in, the total.
abbrev pub is_announced : Subscription → Key → Bool
is_announced s k =
    if any is_filled s.tmdb_seasons
    then any (announces k) s.tmdb_seasons
    else is_counted s.tmdb_total_count k

abbrev pub is_first_or_empty : RawSeason → Bool
is_first_or_empty r = not (is_filled r) || is_number 1 r.season_number

pub has-or_keys :
    (k : Key) (a b : List Key) → has k (or_keys a b) ≡ (if is_none a then has k b else has k a)
has-or_keys k [] b = refl
has-or_keys k (x ∷ a) b = refl

is_none-union :
    (keys : List Key) (s count : ℕ)
    → (count == 0) ≡ false
    → is_none (union keys (season_keys s 1 count)) ≡ false
is_none-union keys s zero h = cc
is_none-union [] s (suc count) h = refl
is_none-union (k ∷ keys) s (suc count) h = refl

all-season_keys :
    (s start count : ℕ)
    → (count == 0) ≡ false
    → all in_first_season (season_keys s start count) ≡ (s == 1)
all-season_keys s start zero h = cc
all-season_keys s start (suc zero) h = ground arith
all-season_keys s start (suc (suc n)) h = ground (arith, all-season_keys s (start + 1) (suc n))

has-with_season :
    (k : Key) (keys : List Key) (a b : Option ℕ)
    → has k (with_season (valid_season a b) keys)
      ≡ (has k keys || announces k (record { season_number = a; episode_count = b }))
has-with_season k keys none b = ground arith
has-with_season k keys (some a) none = ground arith
has-with_season k keys (some a) (some b) = elim (Bool-cases (a == 0 || b == 0)) [
  | inl e ↦ rw e (ground arith)
  | inr e ↦ rw (e, has-union k keys (season_keys a 1 b), has-season_keys a 1 b k) (ground arith)
]

has-keys_of_seasons :
    (k : Key) (raw : List RawSeason) (keys : List Key)
    → has k (keys_of_seasons raw keys) ≡ (has k keys || any (announces k) raw)
has-keys_of_seasons k [] keys = ground arith
has-keys_of_seasons k (r ∷ raw) keys = ground (
  arith,
  has-keys_of_seasons k raw (with_season (valid_season r.season_number r.episode_count) keys),
  has-with_season k keys r.season_number r.episode_count,
)

is_none-with_season :
    (keys : List Key) (a b : Option ℕ)
    → is_none (with_season (valid_season a b) keys)
      ≡ (is_none keys && not (is_at_least 1 a && is_at_least 1 b))
is_none-with_season keys none b = ground arith
is_none-with_season keys (some a) none = ground arith
is_none-with_season keys (some a) (some b) = elim (Bool-cases (a == 0 || b == 0)) [
  | inl e ↦ rw e (ground arith)
  | inr e ↦ rw (e, is_none-union keys a b (ground arith)) (ground arith)
]

is_none-keys_of_seasons :
    (raw : List RawSeason) (keys : List Key)
    → is_none (keys_of_seasons raw keys) ≡ (is_none keys && not (any is_filled raw))
is_none-keys_of_seasons [] keys = ground arith
is_none-keys_of_seasons (r ∷ raw) keys = ground (
  arith,
  is_none-keys_of_seasons raw (with_season (valid_season r.season_number r.episode_count) keys),
  is_none-with_season keys r.season_number r.episode_count,
)

pub has-all_tmdb_episode_keys :
    (s : Subscription) (k : Key) → has k (all_tmdb_episode_keys s) ≡ is_announced s k
unfolding all_tmdb_episode_keys
has-all_tmdb_episode_keys s k =
    has-or_keys k (keys_of_seasons s.tmdb_seasons []) (season_keys 1 1 s.tmdb_total_count)
    ∙ rw
        (
          is_none-keys_of_seasons s.tmdb_seasons [],
          has-keys_of_seasons k s.tmdb_seasons [],
          has-season_keys 1 1 s.tmdb_total_count k,
        )
        (ground arith)

has-all :
    (k : Key) (keys : List Key)
    → all in_first_season keys ≡ true
    → has k keys ≡ true
    → in_first_season k ≡ true
has-all k [] h m = cc
has-all k (x ∷ keys) h m = ground (arith, h, m, has-all k keys, (pair_equal.same_iff x k).0)

all-new :
    (keys more : List Key)
    → (all in_first_season keys && all in_first_season (diff more keys))
      ≡ (all in_first_season keys && all in_first_season more)
all-new keys [] = refl
all-new keys (k ∷ more) = elim (Bool-cases (has k keys)) [
  | inl old ↦ rw old (ground (arith, all-new keys more, has-all k keys, old))
  | inr new ↦ rw new (ground (arith, all-new keys more))
]

all-append :
    (xs ys : List Key)
    → all in_first_season (xs ++ ys) ≡ (all in_first_season xs && all in_first_season ys)
all-append [] ys = refl
all-append (x ∷ xs) ys = ground (arith, all-append xs ys)

all-union :
    (keys more : List Key)
    → all in_first_season (union keys more) ≡ (all in_first_season keys && all in_first_season more)
all-union keys more = all-append keys (diff more keys) ∙ all-new keys more

all-with_season :
    (keys : List Key) (a b : Option ℕ)
    → all in_first_season (with_season (valid_season a b) keys) ≡ (
        all in_first_season keys
        && is_first_or_empty (record { season_number = a; episode_count = b }))
all-with_season keys none b = ground arith
all-with_season keys (some a) none = ground arith
all-with_season keys (some a) (some b) = elim (Bool-cases (a == 0 || b == 0)) [
  | inl e ↦ rw e (ground arith)
  | inr e ↦
      rw (e, all-union keys (season_keys a 1 b), all-season_keys a 1 b (ground arith))
        (ground arith)
]

all-keys_of_seasons :
    (raw : List RawSeason) (keys : List Key)
    → all in_first_season (keys_of_seasons raw keys)
      ≡ (all in_first_season keys && all is_first_or_empty raw)
all-keys_of_seasons [] keys = ground arith
all-keys_of_seasons (r ∷ raw) keys = ground (
  arith,
  all-keys_of_seasons raw (with_season (valid_season r.season_number r.episode_count) keys),
  all-with_season keys r.season_number r.episode_count,
)

all-first : (count start : ℕ) → all in_first_season (season_keys 1 start count) ≡ true
all-first zero start = refl
all-first (suc n) start = all-first n (start + 1)

all-or_keys :
    (a b : List Key)
    → all in_first_season b ≡ true
    → all in_first_season (or_keys a b) ≡ all in_first_season a
all-or_keys [] b h = h
all-or_keys (k ∷ a) b h = refl

pub all-all_tmdb_episode_keys :
    (s : Subscription)
    → all in_first_season (all_tmdb_episode_keys s) ≡ all is_first_or_empty s.tmdb_seasons
unfolding all_tmdb_episode_keys
all-all_tmdb_episode_keys s =
    all-or_keys (keys_of_seasons s.tmdb_seasons []) (season_keys 1 1 s.tmdb_total_count)
      (all-first s.tmdb_total_count 1)
    ∙ all-keys_of_seasons s.tmdb_seasons []
