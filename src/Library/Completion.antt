-- ===== src/Library/Completion.antt =====
-- When a subscription is complete.
use togo.Common.{
  ℕ, zero, suc, ◌≤◌, ◌≡◌, refl, String, Bool, true, false, ◌&&◌, ◌||◌, Option, none, some, List, [],
  ◌∷◌, arith, all, length, is_some, inl, inr, Bool-cases, diff, subset, pair_equal, str_eq,
}
use togo.Episodes.{
  Key, Subscription, RawSeason, is_tv, is_none, in_first_season, season_keys, all_tmdb_episode_keys,
  owned_episode_keys, missing_episode_keys, explicit_keys, counted_keys, or_keys,
}
use togo.Library.{Tracked, subscription_is_complete, completion_state}

is_none-diff : (s t : List Key) → is_none (diff s t) ≡ subset s t
is_none-diff [] t = refl
is_none-diff (k ∷ s) t = ground (arith, is_none-diff s t)

diff_none : (s t : List Key) → is_none t ≡ true → is_none (diff s t) ≡ is_none s
diff_none [] [] h = refl
diff_none (k ∷ s) [] h = refl
diff_none s (j ∷ t) h = cc

length_some : (s : List Key) → is_none s ≡ false → 1 ≤ length s
length_some [] h = cc
length_some (k ∷ s) h = omega arith

is_none-or_keys : (a b : List Key) → is_none (or_keys a b) ≡ (is_none a && is_none b)
is_none-or_keys [] b = refl
is_none-or_keys (k ∷ a) b = refl

is_none-season_keys : (s start n : ℕ) → is_none (season_keys s start n) ≡ true → n ≡ 0
is_none-season_keys s start zero h = refl
is_none-season_keys s start (suc n) h = cc

-- A library that owns no episode by its keys has no count that would stand for some.
count_of_none :
    (fullmatch : String → Option (ℕ × ℕ)) (s : Subscription)
    → is_none (owned_episode_keys fullmatch s) ≡ true
    → all in_first_season (all_tmdb_episode_keys s) ≡ true
    → s.emby_count ≡ 0
unfolding owned_episode_keys
count_of_none fullmatch s h first =
    let none_counted : is_none (counted_keys s) ≡ true =
      ground (arith, is_none-or_keys (explicit_keys fullmatch s) (counted_keys s)) in
    is_none-season_keys 1 1 s.emby_count (ground (arith, rw first at none_counted))

-- A subscription to a series whose episodes are known is complete, by its row, exactly when no
-- episode is missing.
pub subscription_is_complete-missing :
    (fullmatch : String → Option (ℕ × ℕ)) (s : Subscription)
    → is_tv s.media_type ≡ true
    → is_none (all_tmdb_episode_keys s) ≡ false
    → subscription_is_complete fullmatch s none none ≡ is_none (missing_episode_keys fullmatch s)
unfolding subscription_is_complete missing_episode_keys
subscription_is_complete-missing fullmatch s series known =
    let expected = all_tmdb_episode_keys s in
    let owned = owned_episode_keys fullmatch s in
    elim (Bool-cases (is_none owned)) [
      | inr some_owned ↦ rw (series, known, some_owned, is_none-diff expected owned) refl
      | inl none_owned ↦
          rw (series, known, none_owned, diff_none expected owned none_owned, known)
            (elim (Bool-cases (all in_first_season expected)) [
              | inr several ↦ rw several refl
              | inl first ↦
                  ground
                    (arith, count_of_none fullmatch s none_owned first, length_some expected known)
            ])
    ]

-- Whatever the library says, the new status is `completed` exactly when the subscription is complete
-- now or was completed before, and there is a time of completion exactly when it is.
pub completion_state_lem :
    (fullmatch : String → Option (ℕ × ℕ)) (now : ℕ) (s : Tracked) (total : ℕ)
    (seasons : List RawSeason) (owned : List Key) (count : ℕ) (in_library : Bool)
    → let done = completion_state fullmatch now s total seasons owned count in_library in
      (str_eq done.0 "completed" ≡ (done.2 || str_eq s.status "completed"))
      × (is_some done.1 ≡ (done.2 || str_eq s.status "completed"))
unfolding completion_state
completion_state_lem fullmatch now s total seasons owned count in_library =
    let enriched = record (s.base) {
      tmdb_total_count = total;
      tmdb_seasons = seasons;
      emby_episodes = some owned;
      emby_count = count;
      in_library = in_library;
    } in
    let complete = subscription_is_complete fullmatch enriched (some in_library) (some count) in
    elim (Bool-cases complete) [
      | inl c ↦ rw c (refl, refl)
      | inr c ↦ elim (Bool-cases (str_eq s.status "completed")) [
        | inl d ↦ rw (c, d) (refl, refl)
        | inr d ↦ rw (c, d, d) (refl, refl)
      ]
    ]
