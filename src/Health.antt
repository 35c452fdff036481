-- ===== src/Health.antt =====
-- app/services/source_health.py: the failures and the cooldowns of sources, by the key of a source.
-- The smoothed latencies, which are floats and order the sources only, are left out.
pub mod Cooldown
mod Examples
use togo.Common.{
  ℕ, ◌+◌, String, Bool, true, false, not, ◌&&◌, ◌||◌, Option, none, some, List, [], ◌∷◌,
  if◌then◌else◌, leb, ltb, or_else, seconds, length, drop, Dict, get, put, pop, pop_all, keys,
  str_eq,
}

abbrev pub cooldown : ℕ
cooldown = seconds 180

abbrev pub failure_threshold : ℕ
failure_threshold = 2

abbrev pub max_entries : ℕ
max_entries = 256

pub record Health : Type 0 where
  pub failures : Dict ℕ
  pub cooldown_until : Dict ℕ

abbrev pub no_health : Health
no_health = record { failures = []; cooldown_until = [] }

unfoldable pub note_source_success : String → Health → Health
note_source_success key h =
    if str_eq key ""
    then h
    else record { failures = put key 0 h.failures; cooldown_until = pop key h.cooldown_until }

-- `for key, until in list(_cooldown_until.items())` of `_purge`.
abbrev purge_expired : ℕ → Dict ℕ → Health → Health
purge_expired now [] h = h
purge_expired now ((key, until) ∷ items) h =
    let h' : Health = record {
      failures = pop key h.failures;
      cooldown_until = pop key h.cooldown_until;
    } in
    purge_expired now items (if leb until now then h' else h)

-- `sorted(…, key=lambda item: item[1], reverse=True)`, which keeps the order of equal numbers.
abbrev insert_failing : String × ℕ → Dict ℕ → Dict ℕ
insert_failing e [] = e ∷ []
insert_failing e (f ∷ fs) =
    let rest = insert_failing e fs in if leb f.1 e.1 then e ∷ f ∷ fs else f ∷ rest

abbrev most_failing : Dict ℕ → Dict ℕ
most_failing [] = []
most_failing (e ∷ es) = insert_failing e (most_failing es)

abbrev purge_overflow : Health → Health
purge_overflow h =
    let overflow = keys (drop max_entries (most_failing h.failures)) in
    if leb (length h.failures) max_entries then h else record {
      failures = pop_all overflow h.failures;
      cooldown_until = pop_all overflow h.cooldown_until;
    }

unfoldable pub purge : ℕ → Health → Health
purge now h =
    if leb (length h.failures) max_entries && leb (length h.cooldown_until) max_entries
    then h
    else purge_overflow (purge_expired now h.cooldown_until h)

abbrev pub failure_count : Bool → String → Health → ℕ
failure_count timeout key h = or_else (get key h.failures) 0 + (if timeout then 2 else 1)

abbrev pub with_failure : Bool → String → ℕ → Health → Health
with_failure timeout key now h =
    let count = failure_count timeout key h in
    record {
      failures = put key count h.failures;
      cooldown_until =
          if leb failure_threshold count
          then put key (now + cooldown) h.cooldown_until
          else h.cooldown_until;
    }

unfoldable pub note_source_failure : Bool → String → ℕ → Health → Health
unfolding purge
note_source_failure timeout key now h =
    if str_eq key "" then h else purge now (with_failure timeout key now h)

unfoldable pub source_on_cooldown : String → ℕ → Health → Bool × Health
source_on_cooldown key now h =
    let until = or_else (get key h.cooldown_until) 0 in
    if str_eq key "" || leb until 0
    then (false, h)
    else if leb until now
    then (
      false,
      record { failures = put key 0 h.failures; cooldown_until = pop key h.cooldown_until },
    )
    else (true, h)

module _ {ℓ} {S : Type ℓ} (key : S → String) where
  -- The comprehension of `filter_ready_sources`, whose tests write the state.
  abbrev pub ready_sources : ℕ → List S → Health → List S × Health
  ready_sources now [] h = ([], h)
  ready_sources now (s ∷ sources) h =
      let (cooling, h') = source_on_cooldown (key s) now h in
      let (rest, h'') = ready_sources now sources h' in (if cooling then rest else s ∷ rest, h'')

  -- `ready or list(sources)`
  abbrev pub or_all : List S → List S → List S
  or_all [] sources = sources
  or_all (s ∷ ready) sources = s ∷ ready

  unfoldable pub filter_ready_sources : ℕ → List S → Health → List S × Health
  filter_ready_sources now sources h =
      let (ready, h') = ready_sources now sources h in (or_all ready sources, h')
