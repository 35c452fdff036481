-- ===== src/SourceStats/Degraded.antt =====
-- For how long a source is passed over.
use togo.Common.{
  ℕ, ◌+◌, ◌<◌, ◌≡◌, inl, inr, Option-cases, false, ◌&&◌, arith, if◌then◌else◌, leb, or_else, Dict,
  get, get-put, text_refl,
}
use togo.SourceStats.Counts.{successes, failures}
use togo.SourceStats.{
  Stat, Fetch, healthy, recent_failures, health_cooldown, fail_margin, slow_latency_ms,
  source_health_from_item, source_health_status, record_source_fetch,
}

-- After a failed fetch whose latency is missing or below the slow one, a source is passed over for
-- ten minutes if with this failure its failures are three or more above its successes, and it is
-- healthy otherwise and afterwards.
pub source_health_status-failed :
    (f : Fetch) (now later : ℕ) (stats : Dict Stat)
    → f.ok ≡ false
    → or_else f.latency_ms 0 < slow_latency_ms
    → source_health_status f.source_key later (record_source_fetch f now stats) ≡ (
        if leb later (now + health_cooldown)
          && leb
              (successes (get f.source_key stats) + fail_margin)
              (failures (get f.source_key stats) + 1)
        then recent_failures
        else healthy)
unfolding source_health_status record_source_fetch source_health_from_item
source_health_status-failed f now later stats bad quick =
    elim (Option-cases (get f.source_key stats)) [
      | inl e ↦ rw (get-put, text_refl f.source_key, e, bad) (ground arith)
      | inr s ↦ rw (get-put, text_refl f.source_key, s.1, bad) (ground arith)
    ]
