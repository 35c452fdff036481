-- ===== src/Search/Reached.antt =====
-- How far a search goes, and what it leaves on every way out.
use togo.Common.{
  ℕ, ◌≡◌, refl, ap, subst, ◌∙◌, String, Bool, true, false, ◌&&◌, Option, none, some, List, [], ◌∷◌,
  arith, inl, inr, Bool-cases, length, length-append, str_eq,
}
use togo.Delivery.{Resource}
use togo.Episodes.{Subscription, is_none, missing_episode_keys, all_tmdb_episode_keys}
use togo.Library.{Tracked, subscription_should_hide}
use togo.Matching.{Texts, Result}
use togo.Matching.Decision.{filled}
use togo.Matching.Guarded.{nothing_expected}
use togo.Saving.{Links}
use togo.Saving.Insert.{Step, World}
use togo.Saving.Fallback.{Answer}
use togo.Saving.Telegram.{Selection, Summary, attach_telegram_results}
use togo.Search.{has_missing_episodes, should_skip_fallback, needs_resource_search}
use togo.Search.Action.{Action, bound}
use togo.Search.Ed2k.{attach_ed2k}
use togo.Search.Stages.{
  Query, Found, quick, full_search, committed, found_of, with_ed2k, stops_after_fast, query_after,
  run_telegram_search_stage, search_ed2k, search_full, after_fast, search_telegram_first,
}
use togo.Search.Attempt.{
  Sourced, with_rows, deliver_all, retry_stuck_pending_resources, with_fallback, after_telegram,
  search_enriched, finally_checked, search_and_attach_resources,
}

-- The summary counts what was created.
abbrev Counts : Option Found → Type 0
Counts none = Unit
Counts (some found) = found.summary.created_count ≡ length found.created

bound-Counts :
    (f : Found → Action Found) (a : Option Found × World)
    → Counts a.0
    → ((found : Found) (w : World)
        → found.summary.created_count ≡ length found.created
        → Counts (f found w).0)
    → Counts (bound f a).0
bound-Counts f (none, w) h next = tt
bound-Counts f (some found, w) h next = next found w h

module _ (fullmatch : String → Option (ℕ × ℕ)) (s : Subscription)
    (missing : has_missing_episodes fullmatch s ≡ true) where
  no_skip_of_fallback :
      (a : Summary) → a.created_count ≡ 0 → should_skip_fallback fullmatch a s ≡ false
  unfolding should_skip_fallback
  no_skip_of_fallback a nothing = ground (arith, nothing, missing)

  some_missing : is_none (missing_episode_keys fullmatch s) ≡ false
  some_missing = ground (arith, missing)

  some_expected : is_none (all_tmdb_episode_keys s) ≡ false
  some_expected = ground (arith, some_missing, nothing_expected fullmatch s)

needed_when_missing :
    (fullmatch : String → Option (ℕ × ℕ)) (s : Tracked)
    → has_missing_episodes fullmatch s.base ≡ true
    → needs_resource_search fullmatch s ≡ true
unfolding needs_resource_search
needed_when_missing fullmatch s missing =
    ground (
      arith,
      missing,
      some_missing fullmatch s.base missing,
      some_expected fullmatch s.base missing,
    )

module _ (t : Texts) (l : Links) (raises : Step → Result → Bool)
    (deliver : ℕ → List Resource → Answer × List Resource) (history : Query → List Result)
    (now : ℕ) where
  committed-Counts :
      (f : Selection → Found) (w : World) (o : Option Selection)
      → ((a : Selection) → (f a).summary.created_count ≡ length (f a).created)
      → Counts (committed f w o).0
  committed-Counts f w none h = tt
  committed-Counts f w (some a) h = h a

  with_ed2k-counts :
      (s : Tracked) (found : Found) (a : Selection)
      → found.summary.created_count ≡ length found.created
      → (with_ed2k t l raises deliver history now s found a).summary.created_count
        ≡ length (with_ed2k t l raises deliver history now s found a).created
  with_ed2k-counts s found a h = elim (Bool-cases (filled a.created_ids)) [
    | inl e ↦ rw e (ground (arith, h, length-append found.created a.created_ids))
    | inr e ↦ rw e h
  ]

  search_full-Counts :
      (s : Tracked) (query : Query) (w : World)
      → Counts (search_full t l raises deliver history now s query w).0
  unfolding search_full run_telegram_search_stage search_ed2k
  search_full-Counts s query w =
      bound-Counts (search_ed2k t l raises deliver history now s)
        (run_telegram_search_stage t l raises deliver history now s query w)
        (committed-Counts (found_of t l raises deliver history now s (history query)) w
          (attach_telegram_results t l raises deliver now s (history query) w) (λ a. refl))
        (λ found v h.
          committed-Counts (with_ed2k t l raises deliver history now s found) v
            (attach_ed2k t l raises now s (history full_search) v)
            (λ a. with_ed2k-counts s found a h))

  search_telegram_first-Counts :
      (s : Tracked) (incremental : Bool) (w : World)
      → Counts (search_telegram_first t l raises deliver history now s incremental w).0
  unfolding search_telegram_first run_telegram_search_stage
  search_telegram_first-Counts s true w =
      search_full-Counts s (record full_search { incremental = true }) w
  search_telegram_first-Counts s false w =
      bound-Counts (after_fast t l raises deliver history now s)
        (run_telegram_search_stage t l raises deliver history now s quick w)
        (committed-Counts (found_of t l raises deliver history now s (history quick)) w
          (attach_telegram_results t l raises deliver now s (history quick) w) (λ a. refl))
        (λ found v h. elim (Bool-cases (stops_after_fast t l raises deliver history now s found)) [
          | inl e ↦ rw e h
          | inr e ↦
              rw e (search_full-Counts s (query_after t l raises deliver history now s found) v)
        ])

none_filled : (ids : List ℕ) → filled ids ≡ false → ids ≡ []
none_filled [] h = refl
none_filled (i ∷ ids) h = cc

module _ (t : Texts) (l : Links) (raises : Step → Result → Bool)
    (deliver : ℕ → List Resource → Answer × List Resource) (history : Query → List Result)
    (sources : Tracked → Sourced) (now : ℕ) where
  -- The part of an attempt that comes after Telegram, where not all that it made is delivered.
  after_telegram-with_fallback :
      (s : Tracked) (found : Found) (w : World)
      → has_missing_episodes t.fullmatch s.base ≡ true
      → found.summary.created_count ≡ length found.created
      → (filled found.created
          && (deliver_all t l raises deliver history sources now found.created w).0)
        ≡ false
      → after_telegram t l raises deliver history sources now s found w
        ≡ with_fallback t l raises deliver history sources now s found.created
            (deliver_all t l raises deliver history sources now found.created w).1
  unfolding after_telegram
  after_telegram-with_fallback s found w missing counts open_ones =
      elim (Bool-cases (filled found.created)) [
        | inl some_created ↦
            let failed_one : (deliver_all t l raises deliver history sources now found.created w).0
                ≡ false =
              ground (arith, some_created, open_ones) in
            rw (some_created, failed_one) refl
        | inr nothing ↦
            let empty = none_filled found.created nothing in
            let stays =
              no_skip_of_fallback t.fullmatch s.base missing found.summary
                (counts ∙ ap length empty) in
            elim (Bool-cases (filled found.matches)) [
              | inl e ↦ rw (nothing, e, stays, empty) refl
              | inr e ↦ rw (nothing, e, empty) refl
            ]
      ]

  -- A series that misses an episode is searched for on the other sources as well, unless Telegram has
  -- made something and all of it is delivered, whatever older resources were found there.
  pub search_and_attach_resources-with_fallback :
      (enriched : Tracked → Option Tracked) (incremental mark_checked : Bool) (row s : Tracked)
      (found : Found) (w v : World)
      → str_eq row.status "active" ≡ true
      → enriched row ≡ some s
      → subscription_should_hide t.fullmatch s ≡ false
      → has_missing_episodes t.fullmatch s.base ≡ true
      → search_telegram_first t l raises deliver history now s incremental
          (with_rows (retry_stuck_pending_resources s.base.id now w.rows) w)
        ≡ (some found, v)
      → (filled found.created
          && (deliver_all t l raises deliver history sources now found.created v).0)
        ≡ false
      → search_and_attach_resources t l raises deliver history sources now enriched incremental
          mark_checked
          (some row)
          w
        ≡ finally_checked t l raises deliver history sources now mark_checked (
            with_fallback t l raises deliver history sources now s found.created
              (deliver_all t l raises deliver history sources now found.created v).1)
  unfolding search_and_attach_resources search_enriched
  search_and_attach_resources-with_fallback enriched incremental mark_checked row s found w v active
        answered shown missing searched open_ones =
      let start = with_rows (retry_stuck_pending_resources s.base.id now w.rows) w in
      let counts : Counts (some found) =
        subst (λ a. Counts a.0) searched
          (search_telegram_first-Counts t l raises deliver history now s incremental start) in
      rw
        (
          active,
          answered,
          shown,
          needed_when_missing t.fullmatch s missing,
          searched,
          after_telegram-with_fallback s found v missing counts open_ones,
        )
        refl
