-- ===== src/Scheduling/Examples.antt =====
-- Jobs and subscriptions that are scheduled: tests and worked instances.
use togo.Common.{ℕ, ◌≡◌, refl, arith, String, false, Option, none, some, [], ◌∷◌, seconds}
use togo.Episodes.{is_none, missing_episode_keys, all_tmdb_episode_keys, owned_episode_keys}
use togo.Jobs.{Queue, Job, running, latest_job, create_job, mark_job_failed}
use togo.Matching.Fixture.{series}
use togo.Scheduling.{reuse_or_create_job}
use togo.Scheduling.Active.{OnlyLatest, IsTheActive, reuse_or_create_job-IsTheActive}
use togo.Scheduling.Recent.{Listed, should_skip_recent_search_all}
use togo.Scheduling.Kept.{should_skip_recent_search_all-missing}

abbrev fullmatch : String → Option (ℕ × ℕ)
fullmatch s = none

abbrev hung : Job
hung = record {
  id = 3;
  kind = "subscription_search";
  target_id = some 1;
  status = running;
  payload = "{}";
  result = none;
  error = none;
  created_at = 0;
  started_at = some 0;
  heartbeat_at = none;
  worker_id = none;
  finished_at = none;
  updated_at = 0;
}

abbrev queue : Queue
queue = record { jobs = hung ∷ []; last_id = 3 }

abbrev listed : Listed
listed = record { base = series; last_checked_text = "2024"; last_checked = some 0 }

hung_alone : OnlyLatest "subscription_search" (some 1) queue
unfolding latest_job
hung_alone = refl

episode_open : is_none (missing_episode_keys fullmatch series) ≡ false
unfolding missing_episode_keys all_tmdb_episode_keys owned_episode_keys
episode_open = refl

test_replaced :
    (reuse_or_create_job "subscription_search" (some 1) none (seconds 181) queue).0.job_id ≡ 4
unfolding reuse_or_create_job latest_job create_job mark_job_failed
test_replaced = refl

reuse_or_create_job-IsTheActive_example :
    let (a, q) = reuse_or_create_job "subscription_search" (some 1) none (seconds 181) queue in
    IsTheActive "subscription_search" (some 1) a.job_id q
reuse_or_create_job-IsTheActive_example =
    reuse_or_create_job-IsTheActive "subscription_search" (some 1) none (seconds 181) queue
      hung_alone

should_skip_recent_search_all-missing_example :
    should_skip_recent_search_all fullmatch (seconds 130) listed ≡ false
should_skip_recent_search_all-missing_example =
    should_skip_recent_search_all-missing fullmatch (seconds 130) 0 listed refl episode_open refl
      (omega arith)
