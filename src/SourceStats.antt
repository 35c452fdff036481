-- ===== src/SourceStats.antt =====
-- app/services/source_stats.py: the table of fetches and matches of the sources, by source key, and
-- the sources that are passed over for a while after failures or slow answers.
-- A latency is a number of milliseconds; a missing one is NULL.
pub mod Key
pub mod Counts
pub mod Degraded
mod Examples
use togo.Common.{
  ℕ, ◌+◌, String, Bool, true, false, ◌&&◌, Option, none, some, List, [], ◌∷◌, if◌then◌else◌, leb,
  max, or_else, coalesce, seconds, truncate, Dict, get, put, str_eq,
}
use togo.SourceStats.Key.{source_stats_key, split_colon}

abbrev pub health_cooldown : ℕ
health_cooldown = seconds 600

abbrev pub fail_margin : ℕ
fail_margin = 3

abbrev pub slow_latency_ms : ℕ
slow_latency_ms = 12000

pub record Stat : Type 0 where
  pub source_name : String
  pub source_type : String
  pub success_count : ℕ
  pub fail_count : ℕ
  pub match_count : ℕ
  pub last_items : ℕ
  pub last_latency_ms : Option ℕ
  pub last_success_at : Option ℕ
  pub last_error_at : Option ℕ
  pub last_error : String
  pub updated_at : ℕ

-- The arguments of `record_source_fetch`.
pub record Fetch : Type 0 where
  pub source_key : String
  pub name : String
  pub type_of_source : String
  pub ok : Bool
  pub items : ℕ
  pub latency_ms : Option ℕ
  pub error : String

-- The row of VALUES.
abbrev pub excluded_row : Fetch → ℕ → Stat
excluded_row f now = record {
  source_name = f.name;
  source_type = f.type_of_source;
  success_count = if f.ok then 1 else 0;
  fail_count = if f.ok then 0 else 1;
  match_count = 0;
  last_items = f.items;
  last_latency_ms = f.latency_ms;
  last_success_at = if f.ok then some now else none;
  last_error_at = if f.ok then none else some now;
  last_error = truncate 500 f.error;
  updated_at = now;
}

-- The SET of ON CONFLICT … DO UPDATE.
abbrev pub fetched_row : Stat → Stat → Stat
fetched_row s e = record s {
  source_name = e.source_name;
  source_type = e.source_type;
  success_count = s.success_count + e.success_count;
  fail_count = s.fail_count + e.fail_count;
  last_items = e.last_items;
  last_latency_ms = e.last_latency_ms;
  last_success_at = coalesce e.last_success_at s.last_success_at;
  last_error_at = coalesce e.last_error_at s.last_error_at;
  last_error = if str_eq e.last_error "" then s.last_error else e.last_error;
  updated_at = e.updated_at;
}

-- INSERT … ON CONFLICT(source_key) DO UPDATE.
abbrev pub upserted : (Stat → Stat → Stat) → Option Stat → Stat → Stat
upserted f none e = e
upserted f (some s) e = f s e

unfoldable pub record_source_fetch : Fetch → ℕ → Dict Stat → Dict Stat
record_source_fetch f now stats =
    put f.source_key (upserted fetched_row (get f.source_key stats) (excluded_row f now)) stats

-- The statement of `record_source_match`, once it has the key, the name and the type.
abbrev pub matched_row : Stat → Stat → Stat
matched_row s e = record s {
  source_name = e.source_name;
  source_type = e.source_type;
  match_count = s.match_count + 1;
  updated_at = e.updated_at;
}

abbrev pub match_row : String → String → ℕ → Stat
match_row name type_of_source now = record {
  source_name = name;
  source_type = type_of_source;
  success_count = 0;
  fail_count = 0;
  match_count = 1;
  last_items = 0;
  last_latency_ms = none;
  last_success_at = none;
  last_error_at = none;
  last_error = "";
  updated_at = now;
}

unfoldable pub record_match : String → String → String → ℕ → Dict Stat → Dict Stat
record_match key name type_of_source now stats =
    put key (upserted matched_row (get key stats) (match_row name type_of_source now)) stats

abbrev match_split : Option (String × String) → ℕ → Dict Stat → Dict Stat
match_split none now stats = stats
match_split (some (type_of_source, name)) now stats =
    record_match (source_stats_key type_of_source name "") name type_of_source now stats

-- With Python's `str.strip` for an argument.
unfoldable pub record_source_match : (String → String) → Option String → ℕ → Dict Stat → Dict Stat
record_source_match strip source now stats =
    match_split (split_colon (strip (or_else source ""))) now stats

abbrev pub is_recent : ℕ → Option ℕ → Bool
is_recent now none = false
is_recent now (some t) = leb now (t + health_cooldown)

abbrev pub latest : Option ℕ → Option ℕ → Option ℕ
latest none b = b
latest (some s) none = some s
latest (some s) (some t) = some (max s t)

-- `degraded` with its reason, or neither.
pub data Verdict : Type 0 where
  healthy recent_failures slow_source : Verdict

unfoldable pub source_health_from_item : ℕ → Stat → Verdict
source_health_from_item now s =
    if is_recent now s.last_error_at && leb (s.success_count + fail_margin) s.fail_count
    then recent_failures
    else if leb slow_latency_ms (or_else s.last_latency_ms 0)
        && is_recent now (latest s.last_error_at s.last_success_at)
    then slow_source
    else healthy

abbrev pub verdict_of : ℕ → Option Stat → Verdict
verdict_of now none = healthy
verdict_of now (some s) = source_health_from_item now s

unfoldable pub source_health_status : String → ℕ → Dict Stat → Verdict
source_health_status key now stats = verdict_of now (get key stats)
