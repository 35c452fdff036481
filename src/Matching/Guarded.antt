-- ===== src/Matching/Guarded.antt =====
-- The guard of the missing episodes, when a resource is delivered.
use togo.Common.{
  ℕ, String, ◌≡◌, refl, sym, ◌∙◌, Bool, true, false, not, Option, none, some, List, [], ◌∷◌, arith,
  inter, inl, inr, Bool-cases, pair_equal,
}
use togo.Episodes.{Key, Subscription, is_tv, is_none, all_tmdb_episode_keys, missing_episode_keys}
use togo.Library.{Tracked, Marks, result_matches_missing_episodes}
use togo.Library.Needed.{result_matches_missing_episodes-any, is_none-inter}
use togo.Matching.{
  Texts, Result, Reason, named_episodes, episode_text, result_matches_subscription,
  result_skip_reason,
}
use togo.Matching.Decision.{
  Reject, accepted, explained_or, needed, candidate_reject_reason, decide_resource_candidate,
  is_skip_reason, guard_skip_reason, allowed_by, resource_allowed, subscription_mismatch,
}

inter_nothing : (s t : List Key) → is_none t ≡ true → is_none (inter s t) ≡ true
inter_nothing [] t h = refl
inter_nothing (k ∷ s) [] h = inter_nothing s [] h
inter_nothing (k ∷ s) (j ∷ t) h = cc

inter_of_nothing : (s t : List Key) → is_none s ≡ true → is_none (inter s t) ≡ true
inter_of_nothing [] t h = refl
inter_of_nothing (k ∷ s) t h = cc

pub nothing_expected :
    (fullmatch : String → Option (ℕ × ℕ)) (s : Subscription)
    → is_none (all_tmdb_episode_keys s) ≡ true
    → is_none (missing_episode_keys fullmatch s) ≡ true
unfolding missing_episode_keys
nothing_expected fullmatch s h = ground (arith, h)

needed_of :
    (fullmatch : String → Option (ℕ × ℕ)) (failed : Bool) (s : Subscription) (named : List Key)
    (marks : Marks)
    → is_tv s.media_type ≡ true
    → is_none (inter named (missing_episode_keys fullmatch s)) ≡ false
    → is_none named ≡ false
    → is_none (all_tmdb_episode_keys s) ≡ false
    → result_matches_missing_episodes fullmatch failed s named marks ≡ true
unfolding result_matches_missing_episodes
needed_of fullmatch true s named marks series open_ones some_named known = refl
needed_of fullmatch false s named marks series open_ones some_named known =
    result_matches_missing_episodes-any fullmatch s named marks series known some_named
    ∙ rw (sym (is_none-inter named (missing_episode_keys fullmatch s)), open_ones) refl

needed_is :
    (fullmatch : String → Option (ℕ × ℕ)) (failed : Bool) (s : Subscription) (named : List Key)
    (marks : Marks)
    → failed ≡ false
    → is_tv s.media_type ≡ true
    → is_none (all_tmdb_episode_keys s) ≡ false
    → is_none named ≡ false
    → result_matches_missing_episodes fullmatch failed s named marks
      ≡ not (is_none (inter named (missing_episode_keys fullmatch s)))
needed_is fullmatch failed s named marks answers series known some_named = rw answers (
    result_matches_missing_episodes-any fullmatch s named marks series known some_named
    ∙ sym (is_none-inter named (missing_episode_keys fullmatch s)))

explained_is_no_skip :
    (o : Option Reason) → is_skip_reason (explained_or subscription_mismatch o) ≡ false
explained_is_no_skip none = refl
explained_is_no_skip (some r) = refl

abbrev skips : Option Reject → Bool
skips none = false
skips (some reason) = is_skip_reason reason

module _ (t : Texts) (s : Tracked) (r : Result) where
  abbrev missing_now : List Key
  missing_now = missing_episode_keys t.fullmatch s.base

  abbrev named : List Key
  named = named_episodes t s r []

  missing_some : is_none (inter named missing_now) ≡ false → is_none missing_now ≡ false
  missing_some open_ones = ground (arith, inter_nothing named missing_now)

  named_some : is_none (inter named missing_now) ≡ false → is_none named ≡ false
  named_some open_ones = ground (arith, inter_of_nothing named missing_now)

  needed_when_missing :
      is_tv s.base.media_type ≡ true
      → is_none (inter named missing_now) ≡ false
      → needed t s r [] named ≡ true
  needed_when_missing series open_ones =
      let known : is_none (all_tmdb_episode_keys s.base) ≡ false =
        ground (arith, nothing_expected t.fullmatch s.base, inter_nothing named missing_now) in
      needed_of t.fullmatch s.emby_snapshot_failed s.base named
        (t.marks_of s r (episode_text t r [])) series open_ones (named_some open_ones) known

  -- A result that is accepted for a series whose library answers and whose episodes are known, and that
  -- names episodes, names one that is missing.
  pub decide_resource_candidate-accepted :
      s.emby_snapshot_failed ≡ false
      → is_tv s.base.media_type ≡ true
      → is_none (all_tmdb_episode_keys s.base) ≡ false
      → is_none named ≡ false
      → accepted (decide_resource_candidate t s r []) ≡ true
      → is_none (decide_resource_candidate t s r []).missing_coverage ≡ false
  unfolding decide_resource_candidate candidate_reject_reason
  decide_resource_candidate-accepted answers series known some_named ok =
      let needs =
        needed_is t.fullmatch s.emby_snapshot_failed s.base named
          (t.marks_of s r (episode_text t r [])) answers series known some_named in
      ground (arith, ok, needs)

  no_skip :
      is_tv s.base.media_type ≡ true
      → is_none (inter named missing_now) ≡ false
      → skips (candidate_reject_reason t s r named (inter named missing_now) []) ≡ false
  unfolding candidate_reject_reason
  no_skip series open_ones = elim (Bool-cases (t.is_valid_download_link r.url)) [
    | inr bad ↦ rw bad refl
    | inl good ↦ elim (Bool-cases (result_matches_subscription t s r [])) [
      | inr other ↦ rw (good, other) (explained_is_no_skip (result_skip_reason t s r []))
      | inl same ↦ rw (good, same, needed_when_missing series open_ones) refl
    ]
  ]

  allowed_when_no_skip :
      (o : Option Reject)
      → guard_skip_reason t s r ≡ none
      → skips o ≡ false
      → allowed_by t s r (some is_skip_reason) o ≡ true
  allowed_when_no_skip none h n = refl
  allowed_when_no_skip (some reason) h n = rw (h, n) refl

  -- While no comparison raises, a delivery never skips a resource of a series that names an episode
  -- which is missing, whatever else is said against the resource.
  pub resource_allowed-missing :
      t.raises s r ≡ false
      → is_tv s.base.media_type ≡ true
      → is_none (inter named missing_now) ≡ false
      → resource_allowed t (some s) r (some is_skip_reason) ≡ true
  unfolding resource_allowed decide_resource_candidate
  resource_allowed-missing quiet series open_ones =
      let nothing : guard_skip_reason t s r ≡ none =
        rw (series, named_some open_ones, missing_some open_ones, open_ones) refl in
      rw quiet (
        allowed_when_no_skip (candidate_reject_reason t s r named (inter named missing_now) [])
          nothing (no_skip series open_ones))
