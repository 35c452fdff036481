-- ===== src/Library/Needed.antt =====
-- Which results a subscription still needs.
use togo.Common.{
  ℕ, ◌≡◌, refl, String, true, false, not, ◌&&◌, Option, List, [], ◌∷◌, arith, inl, inr, Bool-cases,
  has, inter, subset, pair_equal, any,
}
use togo.Episodes.{
  Key, Subscription, is_tv, is_none, all_tmdb_episode_keys, owned_episode_keys,
  missing_episode_keys,
}
use togo.Episodes.Missing.{has-missing_episode_keys}
use togo.Library.{Marks, result_matches_missing_episodes}

pub is_none-inter : (s t : List Key) → not (is_none (inter s t)) ≡ any (λ k. has k t) s
is_none-inter [] t = refl
is_none-inter (k ∷ s) t = ground (arith, is_none-inter s t)

any-owned :
    (fullmatch : String → Option (ℕ × ℕ)) (s : Subscription) (episodes : List Key)
    → subset episodes (owned_episode_keys fullmatch s) ≡ true
    → any (λ k. has k (missing_episode_keys fullmatch s)) episodes ≡ false
any-owned fullmatch s [] h = refl
any-owned fullmatch s (k ∷ episodes) h =
    ground (arith, has-missing_episode_keys fullmatch s k, any-owned fullmatch s episodes)

any-none :
    (missing episodes : List Key)
    → is_none missing ≡ true
    → any (λ k. has k missing) episodes ≡ false
any-none [] [] h = refl
any-none [] (k ∷ episodes) h = any-none [] episodes h
any-none (m ∷ missing) episodes h = cc

-- While the library answers, a result that names episodes of a series whose episodes are known is
-- needed exactly when one of the episodes is missing, whatever its other marks are.
pub result_matches_missing_episodes-any :
    (fullmatch : String → Option (ℕ × ℕ)) (s : Subscription) (episodes : List Key) (marks : Marks)
    → is_tv s.media_type ≡ true
    → is_none (all_tmdb_episode_keys s) ≡ false
    → is_none episodes ≡ false
    → result_matches_missing_episodes fullmatch false s episodes marks
      ≡ any (λ k. has k (missing_episode_keys fullmatch s)) episodes
unfolding result_matches_missing_episodes
result_matches_missing_episodes-any fullmatch s episodes marks series known named =
    let owned = owned_episode_keys fullmatch s in
    let missing = missing_episode_keys fullmatch s in
    elim (Bool-cases (not (is_none owned) && subset episodes owned)) [
      | inl all_owned ↦
          rw (series, named, all_owned) (ground (arith, any-owned fullmatch s episodes))
      | inr open_ones ↦ elim (Bool-cases (is_none missing)) [
        | inl nothing ↦
            rw (series, named, open_ones, known, nothing)
              (ground (arith, any-none missing episodes nothing))
        | inr something ↦
            rw (series, named, open_ones, known, something) (is_none-inter episodes missing)
      ]
    ]
