-- ===== src/Episodes/Missing.antt =====
-- Which keys the sets of keys.py have.
use togo.Common.{
  ℕ, zero, suc, ◌+◌, ◌-◌, ◌≤◌, ◌≡◌, refl, String, true, false, not, ◌&&◌, Option, List, [], ◌∷◌,
  arith, if◌then◌else◌, ◌==◌, ltb, leb, inl, inr, Bool-cases, length, has, has-select, pair_equal,
}
use togo.Episodes.{
  Key, Subscription, is_tv, is_none, season_keys, season_or_one, expand_episode_range,
  all_tmdb_episode_keys, owned_episode_keys, missing_episode_keys,
}

pub has-season_keys :
    (s start count : ℕ) (k : Key)
    → has k (season_keys s start count) ≡ (s == k.0 && leb start k.1 && ltb k.1 (start + count))
has-season_keys s start zero k = ground arith
has-season_keys s start (suc n) k = ground (arith, has-season_keys s (start + 1) n k)

pub length-season_keys : (s start count : ℕ) → length (season_keys s start count) ≡ count
length-season_keys s start zero = refl
length-season_keys s start (suc n) = omega (arith, length-season_keys s (start + 1) n)

-- A range has exactly the episodes of its season from the first to the last, where a missing last
-- one is the first, and it is empty if it starts at 0, falls, or spans more than 120 episodes.
pub has-expand_episode_range :
    (season start end : ℕ) (k : Key)
    → let last = if end == 0 then start else end in
      has k (expand_episode_range season start end) ≡ (
        not (start == 0)
        && leb (last - start) 120
        && season_or_one season == k.0
        && leb start k.1
        && leb k.1 last)
unfolding expand_episode_range
has-expand_episode_range season start end k =
    let last = if end == 0 then start else end in
    ground (arith, has-season_keys (season_or_one season) start (last - start + 1) k)

pub length-expand_episode_range :
    (season start end : ℕ) → length (expand_episode_range season start end) ≤ 121
unfolding expand_episode_range
length-expand_episode_range season start end =
    let last = if end == 0 then start else end in
    ground (arith, length-season_keys (season_or_one season) start (last - start + 1))

none_has : (k : Key) (s : List Key) → is_none s ≡ true → has k s ≡ false
none_has k [] h = refl
none_has k (x ∷ s) h = cc

-- A key is missing exactly when the subscription is to a series, the series has the episode and the
-- library does not own it.
pub has-missing_episode_keys :
    (fullmatch : String → Option (ℕ × ℕ)) (s : Subscription) (k : Key)
    → has k (missing_episode_keys fullmatch s) ≡ (
        is_tv s.media_type
        && has k (all_tmdb_episode_keys s)
        && not (has k (owned_episode_keys fullmatch s)))
unfolding missing_episode_keys
has-missing_episode_keys fullmatch s k =
    let expected = all_tmdb_episode_keys s in
    let owned = owned_episode_keys fullmatch s in
    elim (Bool-cases (is_none expected)) [
      | inl e ↦ rw (e, none_has k expected e) (ground arith)
      | inr e ↦ rw e (ground (arith, has-select k (λ j. not (has j owned)) expected))
    ]
