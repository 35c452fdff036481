-- ===== src/Lib.antt =====
-- ToGo115: subscriptions to films and series whose links are searched on Telegram, on RSS and
-- magnet sites and on the paid search of Haisou, and handed on to the 115 network disk.
--
-- The parts of the program that are modelled, with the paths of the code:
--
--   app/services/jobs.py: the queue of background jobs, one SQLite table. `Jobs` has the table as a
--     list of rows in the order of their ids and one function for each operation; create_job,
--     claim_next_job, mark_job_running, mark_job_done, mark_job_failed, touch_job_heartbeat,
--     requeue_stale_running_jobs, latest_job, list_jobs and job_queue_stats keep their names. A claim
--     is one step, since it is one transaction that begins with BEGIN IMMEDIATE.
--   app/services/job_worker.py: the loop that claims jobs and runs one, or two beside each other.
--     `Worker` has the claims of a turn (pick_batch, with_sidecar for _execute_with_sidecars), the
--     periodic requeue (requeue_turn) and the calls that an execution makes of the queue (execute).
--     What a dispatched job does is a parameter: it returns or raises.
--   app/services/subscription/delivery: a link from its row to the 115 disk or to the bot. `Delivery`
--     has the row; `Delivery.Failure` the classes of error messages (state.py); `Delivery.Service`
--     the delivery itself (service.py, executor.py and the statements of state.py), as a function
--     from a world to an answer and a world, where a world is the table and the list of the attempts
--     that were made; `Delivery.Retry` the listing, the backoff, the selection and the loop of
--     retries (retry.py). The retry loop takes the delivery of a row as a parameter, as in the code.
--   app/services/concurrency.py: the limits that follow the pressure on Telegram, the semaphores that
--     are refreshed when a limit changes (refresh, for search_semaphore and
--     telegram_dialog_search_semaphore) and the registries of locks (telegram_source_lock). The
--     semaphore has its `_value`; `Concurrency.Permits` runs requests, acquires and releases on it.
--   app/services/sources/haisou/budget.py: the hourly window of paid calls and the two caches of
--     answers, in `Budget`; the threads of the window interleave between its two critical sections.
--   app/services/source_health.py: the cooldown of sources that fail, in `Health`.
--   app/services/adapters/telegram/history/query_result_cache.py: the cache of the results of
--     Telegram queries, in `QueryCache`.
--   app/services/adapters/telegram/models.py: what the quick and the full search share, in
--     `TelegramSearch`: the messages and links that were seen, the sources that come first, the scores
--     of the dialogs and the cached queries. app/services/adapters/telegram/rate_limit.py: the gate
--     that every request to Telegram waits at, in `RequestGate`, with the two steps of a wait.
--   app/services/source_stats.py: the counters of fetches and matches of the sources and the verdict
--     that passes a source over, in `SourceStats`.
--   app/services/subscription/episode/chinese_numbers.py: the reading of Chinese numbers, in
--     `ChineseNumbers`.
--   app/services/subscription/episode: the episodes of a series as a set of pairs of a season and a
--     number. `Episodes` has keys.py: those that TMDB knows, those that the library owns, and the
--     missing ones; `Episodes.Texts` the reading of texts (explicit.py, numbers.py), `Episodes.Packs`
--     of packs (packs.py), and `Episodes.Ranges` the summary of a set (summary.py).
--   app/services/subscription/library: match.py and state.py, in `Library`: which items of the media
--     library belong to a subscription, when it is complete, and which results it still needs.
--   app/services/subscription/match and app/services/resource_match.py: whether a search result fits a
--     subscription, and the reason if it does not, in `Matching`; `Matching.Decision` puts this and
--     the missing episodes together (candidate_decision.py), with resource/matching.py and the guard of
--     resource/guard.py that a resource passes before it is saved or delivered.
--   app/services/subscription/resource: which resources count as the same (resources.py and
--     duplicate.py, in `Saving`), and saving one (ops.py and fallback.py, in `Saving.Insert`), which
--     takes the guard of `Matching.Decision` and the row of `Delivery`. `Saving.Fallback` is the loop
--     of search/selection_fallback.py, which saves and delivers one result after the other;
--     `Saving.Telegram` the choice among the results of a search on Telegram (search/selection.py and
--     selection_telegram.py), and `Saving.Realtime` that among results that come in while the program
--     listens (attach/service.py and attach/match.py). `Saving.Deliverable` puts the guard and the
--     delivery together.
--   app/services/subscription/search/tasks.py: the jobs that searches are scheduled as, in `Scheduling`,
--     on the queue of `Jobs`; search/schedule.py, in `Scheduling.Recent`: which subscriptions a search
--     of all takes, and in what order. search/recent_cache.py is in `RecentSearch`, with the search that
--     looks there first.
--   app/services/subscription/search: one search of a subscription, in `Search`. `Search` has the
--     decisions of flow.py and service.py; `Search.Stages` the quick and the full search on Telegram
--     (flow.py), whose results `Saving.Telegram` takes; `Search.Ed2k` the ed2k links (ed2k.py);
--     `Search.Attempt` the whole attempt with the delivery of what it made and the other sources
--     (service.py), which calls `Library` first and `Saving.Fallback` last; `Search.Waves` the search of
--     all subscriptions (all.py). An operation that may raise is an action (`Search.Action`): an answer,
--     or none for a raise, with the tables it leaves. The results of the search on Telegram, of the
--     other sources and of the library, and the delivery of a row, are parameters. The resources one
--     search made are delivered in their order, and all that it writes has one time.
--   app/services/subscription/crud: the table of subscriptions and the cached lists of them, in
--     `Subscriptions`; `Subscriptions.Calls` makes, changes, deletes and lists them. A subscription that
--     is made is looked up in the library, a parameter here, and its search is a job of `Scheduling`.
--
-- `Common` has what these share: Boolean tests, lists, tables with SELECT and UPDATE, dictionaries
-- as association lists in the order of insertion, and slices of texts.
--
-- Conventions. A time is a whole number of microseconds, also where the code has a float of seconds
-- or an ISO text; what _retry_due does on a text that is empty or no time has no model. The clock is
-- an argument of the operation that reads it. A dictionary of the code is an association list whose
-- keys are unique. But for two, every loop of the code that is modelled runs over a list that is
-- there when it starts, so the functions recurse on that list and no fuel is needed. The `while
-- True` of selection_fallback.py runs on a number of turns, one more than its source has results,
-- and the waves of all.py on the number of subscriptions, of which each takes one at least. All that
-- one call of it writes has one time. What can raise in saving a result is a parameter, a test on
-- the step and the result.
--
-- What is not modelled. Python's Unicode tables (casefold, strip), its regular expressions and
-- urllib are parameters, and so are the answers of the 115, Telegram and Haisou services, which are not
-- code of the repository: nothing is assumed of them. Logs are left out, since no
-- operation reads them. HTTP, HTML and feed parsing, the web routes, the static pages and the
-- database schema have no model; the tables are the rows that the modelled statements read and write.
mod Common
pub mod Jobs
pub mod Worker
pub mod Budget
pub mod Concurrency
pub mod Delivery
pub mod Health
pub mod QueryCache
pub mod RecentSearch
pub mod Saving
pub mod Scheduling
pub mod Search
pub mod SourceStats
pub mod ChineseNumbers
pub mod Episodes
pub mod Library
pub mod Matching
pub mod TelegramSearch
pub mod RequestGate
pub mod Subscriptions
