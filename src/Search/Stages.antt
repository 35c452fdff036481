-- ===== src/Search/Stages.antt =====
-- search/flow.py: the search on Telegram, quick and then full, and the search for ed2k links after it.
-- The search itself, `search_telegram_history`, is a parameter: it answers a list, also an empty one
-- when it raises or takes too long.
use togo.Common.{
  ℕ, ◌+◌, Bool, true, false, not, ◌&&◌, ◌||◌, Option, none, some, List, [], ◌++◌, if◌then◌else◌,
  length, ◌==◌,
}
use togo.Delivery.{Resource}
use togo.Library.{Tracked}
use togo.Matching.{Texts, Result}
use togo.Matching.Decision.{filled}
use togo.Saving.{Links}
use togo.Saving.Insert.{Step, World}
use togo.Saving.Fallback.{Answer}
use togo.Saving.Telegram.{Selection, Summary, summary_of, attach_telegram_results}
use togo.Search.{has_missing_episodes, should_skip_full_after_fast, summary_needs_full_retry}
use togo.Search.Action.{Action, pure, ◌>>=◌}
use togo.Search.Ed2k.{attach_ed2k}

-- What is asked of the search, with what it takes from the shared state: whether sources are asked
-- although an index has them, the results whose sources come first, and whether the messages that the
-- quick search saw are passed over.
pub record Query : Type 0 where
  pub fast : Bool
  pub incremental : Bool
  pub force_remote : Bool
  pub preferred : List Result
  pub skips_seen : Bool

-- The triple `created, matches, summary`.
pub record Found : Type 0 where
  pub created : List ℕ
  pub matches : List Result
  pub summary : Summary

-- The answer of a transaction that a raise rolls back.
abbrev pub committed : {A : Type 0} → (Selection → A) → World → Option Selection → Option A × World
committed f w none = (none, w)
committed f w (some a) = (some (f a), a.world)

-- The quick search, and the full one when nothing came before it.
abbrev pub quick : Query
quick = record {
  fast = true;
  incremental = false;
  force_remote = false;
  preferred = [];
  skips_seen = false;
}

abbrev pub full_search : Query
full_search = record quick { fast = false }

module _ (t : Texts) (l : Links) (raises : Step → Result → Bool)
    (deliver : ℕ → List Resource → Answer × List Resource) (history : Query → List Result) (now : ℕ)
    (s : Tracked) where
  abbrev pub found_of : List Result → Selection → Found
  found_of results a = record {
    created = a.created_ids;
    matches = a.matched;
    summary = summary_of t l raises s results a;
  }

  -- `_run_telegram_search_stage`
  unfoldable pub run_telegram_search_stage : Query → Action Found
  run_telegram_search_stage query w =
      committed (found_of (history query)) w
        (attach_telegram_results t l raises deliver now s (history query) w)

  -- `if ed2k_created: …`
  abbrev pub with_ed2k : Found → Selection → Found
  with_ed2k found a =
      if filled a.created_ids
      then record {
        created = found.created ++ a.created_ids;
        matches = found.matches ++ a.matched;
        summary = record (found.summary) {
          created_count = found.summary.created_count + length a.created_ids;
          raw_matched = found.summary.raw_matched + length a.matched;
          duplicates = found.summary.duplicates + a.duplicate_count;
        };
      }
      else found

  unfoldable pub search_ed2k : Found → Action Found
  search_ed2k found w =
      committed (with_ed2k found) w (attach_ed2k t l raises now s (history full_search) w)

  -- The full search, with the ed2k links.
  unfoldable pub search_full : Query → Action Found
  unfolding run_telegram_search_stage search_ed2k
  search_full query = do found ← run_telegram_search_stage query; search_ed2k found

  -- Whether the quick search is the last one.
  abbrev pub stops_after_fast : Found → Bool
  stops_after_fast found =
      if filled found.created
      then not (has_missing_episodes t.fullmatch s.base)
      else should_skip_full_after_fast t.fullmatch found.summary s.base
        || not (found.summary.raw_matched == 0)
          && not (summary_needs_full_retry t.fullmatch found.summary s.base)

  -- The full search that follows a quick one.
  abbrev pub query_after : Found → Query
  query_after found =
      let remote = found.summary.from_index && found.summary.created_count == 0 in
      record {
        fast = false;
        incremental = false;
        force_remote = remote;
        preferred = if remote then found.matches else history quick;
        skips_seen = not (filled found.created);
      }

  abbrev pub after_fast : Found → Action Found
  after_fast found = if stops_after_fast found then pure found else search_full (query_after found)

  -- `_search_telegram_first`
  unfoldable pub search_telegram_first : Bool → Action Found
  unfolding search_full
  search_telegram_first incremental =
      if incremental
      then search_full (record full_search { incremental = true })
      else run_telegram_search_stage quick >>= after_fast
