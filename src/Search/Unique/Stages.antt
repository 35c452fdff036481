-- ===== src/Search/Unique/Stages.antt =====
-- What the stages of a search on Telegram do together to the rows of the table.
use togo.Common.{ℕ, Bool, true, false, Option, none, some, List, inl, inr, Bool-cases}
use togo.Delivery.{Resource}
use togo.Library.{Tracked}
use togo.Matching.{Texts, Result}
use togo.Saving.{Links}
use togo.Saving.Insert.{Step, World}
use togo.Saving.Fallback.{Answer}
use togo.Saving.Telegram.{Selection, attach_telegram_results}
use togo.Search.Action.{Action, bound}
use togo.Search.Ed2k.{attach_ed2k}
use togo.Search.Stages.{
  Query, Found, quick, full_search, committed, found_of, with_ed2k, stops_after_fast, query_after,
  run_telegram_search_stage, search_ed2k, search_full, after_fast, search_telegram_first,
}
use togo.Search.Unique.{HasUniqueLinks, world_after}
use togo.Search.Unique.Ed2k.{attach_ed2k-HasUniqueLinks}
use togo.Search.Unique.Telegram.{attach_telegram_results-HasUniqueLinks}

module _ (t : Texts) (l : Links) (raises : Step → Result → Bool)
    (deliver : ℕ → List Resource → Answer × List Resource) (history : Query → List Result) (now : ℕ)
    (s : Tracked) where
  committed-HasUniqueLinks :
      (f : Selection → Found) (w : World) (o : Option Selection)
      → HasUniqueLinks t l raises s (world_after t l raises s w o)
      → HasUniqueLinks t l raises s (committed f w o).1
  committed-HasUniqueLinks f w none h = h
  committed-HasUniqueLinks f w (some a) h = h

  bound-HasUniqueLinks :
      (f : Found → Action Found) (a : Option Found × World)
      → HasUniqueLinks t l raises s a.1
      → ((found : Found) (w : World)
          → HasUniqueLinks t l raises s w
          → HasUniqueLinks t l raises s (f found w).1)
      → HasUniqueLinks t l raises s (bound f a).1
  bound-HasUniqueLinks f (none, w) h next = h
  bound-HasUniqueLinks f (some found, w) h next = next found w h

  stage-HasUniqueLinks :
      (query : Query) (w : World)
      → HasUniqueLinks t l raises s w
      → HasUniqueLinks t l raises s
          (run_telegram_search_stage t l raises deliver history now s query w).1
  unfolding run_telegram_search_stage
  stage-HasUniqueLinks query w h =
      committed-HasUniqueLinks (found_of t l raises deliver history now s (history query)) w
        (attach_telegram_results t l raises deliver now s (history query) w)
        (attach_telegram_results-HasUniqueLinks t l raises s deliver now (history query) w h)

  search_full-HasUniqueLinks :
      (query : Query) (w : World)
      → HasUniqueLinks t l raises s w
      → HasUniqueLinks t l raises s (search_full t l raises deliver history now s query w).1
  unfolding search_full search_ed2k
  search_full-HasUniqueLinks query w h =
      bound-HasUniqueLinks (search_ed2k t l raises deliver history now s)
        (run_telegram_search_stage t l raises deliver history now s query w)
        (stage-HasUniqueLinks query w h)
        (λ found v kept.
          committed-HasUniqueLinks (with_ed2k t l raises deliver history now s found) v
            (attach_ed2k t l raises now s (history full_search) v)
            (attach_ed2k-HasUniqueLinks t l raises s now (history full_search) v kept))

  -- A search on Telegram, quick and full and for ed2k links, leaves no two effective rows of the
  -- subscription whose links have the same key, if there were none before, whatever is found and
  -- wherever it raises.
  pub search_telegram_first-HasUniqueLinks :
      (incremental : Bool) (w : World)
      → HasUniqueLinks t l raises s w
      → HasUniqueLinks t l raises s
          (search_telegram_first t l raises deliver history now s incremental w).1
  unfolding search_telegram_first
  search_telegram_first-HasUniqueLinks true w h =
      search_full-HasUniqueLinks (record full_search { incremental = true }) w h
  search_telegram_first-HasUniqueLinks false w h =
      bound-HasUniqueLinks (after_fast t l raises deliver history now s)
        (run_telegram_search_stage t l raises deliver history now s quick w)
        (stage-HasUniqueLinks quick w h)
        (λ found v kept.
          elim (Bool-cases (stops_after_fast t l raises deliver history now s found)) [
            | inl e ↦ rw e kept
            | inr e ↦ rw e (
                search_full-HasUniqueLinks (query_after t l raises deliver history now s found) v
                  kept)
          ])
