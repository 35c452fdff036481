-- ===== src/Concurrency.antt =====
-- app/services/concurrency.py: the adaptive semaphores of the searches, and the registry of locks.
-- `search_semaphore` and `telegram_dialog_search_semaphore` are one code over two sets of globals:
-- `refresh` is that code, given the limit that is wanted. An interval is the request gate's, in
-- microseconds; `none` stands for an exception on the way to it. An event loop is a number. A lock's
-- text key is the stripped source; `subscription_lock` does the same with numbers for keys.
pub mod Permits
pub mod Locks
mod Examples
use togo.Common.{
  ℕ, ◌+◌, ◌-◌, String, Bool, true, false, not, ◌&&◌, ◌||◌, Option, none, some, List, [], ◌∷◌, leb,
  ltb, ◌==◌, if◌then◌else◌, max, min, or_text, length, Dict, get, put, pop_all,
}

abbrev pub telegram_source_concurrency : ℕ
telegram_source_concurrency = 2

abbrev pub subscription_search_concurrency : ℕ
subscription_search_concurrency = 4

unfoldable pub desired_search_concurrency : Option ℕ → ℕ
desired_search_concurrency none = max 1 subscription_search_concurrency
desired_search_concurrency (some interval) = max 1 (
    if leb 800000 interval
    then 1
    else if leb 250000 interval
    then 2
    else subscription_search_concurrency)

abbrev base_concurrency : ℕ
base_concurrency = max 2 telegram_source_concurrency

unfoldable pub desired_dialog_concurrency : Option ℕ → ℕ
desired_dialog_concurrency none = max 1 base_concurrency
desired_dialog_concurrency (some interval) =
    if leb 800000 interval
    then 1
    else if leb 250000 interval
    then max 1 (min 2 base_concurrency)
    else max 1 (min 3 (base_concurrency + 1))

unfoldable pub search_all_wave_size : Option ℕ → ℕ
unfolding desired_search_concurrency
search_all_wave_size interval =
    let desired = desired_search_concurrency interval in
    if leb subscription_search_concurrency desired then min (desired + 1) 6 else desired

-- A semaphore object: its loop and its `_value`.
pub record Semaphore : Type 0 where
  pub loop : ℕ
  pub value : ℕ

-- The globals: the semaphore, if there is one, and the limit that it was last given.
pub record Globals : Type 0 where
  pub semaphore : Option Semaphore
  pub limit : ℕ

abbrev rebuilt : ℕ → ℕ → Globals
rebuilt desired loop = record {
  semaphore = some (record { loop = loop; value = desired });
  limit = desired;
}

-- The globals after a call, and whether the semaphore was built anew.
unfoldable pub refresh : ℕ → ℕ → Globals → Globals × Bool
refresh desired loop g = elim g.semaphore [
  | none ↦ (rebuilt desired loop, true)
  | some s ↦
      if not (s.loop == loop)
      then (rebuilt desired loop, true)
      else if g.limit == desired
      then (g, false)
      else if ltb desired g.limit
      then (if leb g.limit s.value then (rebuilt desired loop, true) else (
        record { semaphore = some (record s { value = min s.value desired }); limit = desired },
        false,
      ))
      else if ltb 0 g.limit && ltb s.value g.limit
      then (g, false)
      else (rebuilt desired loop, true)
]

-- A lock object, told from others by its number, and whether a task holds it.
pub record Lock : Type 0 where
  pub ident : ℕ
  pub locked : Bool

-- The registry, its loop, and the number of the next lock that is made.
pub record Registry : Type 0 where
  pub loop : Option ℕ
  pub locks : Dict Lock
  pub next : ℕ

abbrev pub max_locks : ℕ
max_locks = 256

abbrev pub stale_keys : Dict Lock → List String
stale_keys [] = []
stale_keys ((k, l) ∷ d) = let rest = stale_keys d in if l.locked then rest else k ∷ rest

unfoldable pub evict_stale_locks : Dict Lock → Dict Lock
evict_stale_locks locks =
    if leb (length locks) max_locks then locks else pop_all (stale_keys locks) locks

abbrev pub same_loop : Option ℕ → ℕ → Bool
same_loop none loop = false
same_loop (some l) loop = l == loop

abbrev pub lock_in : String → ℕ → Dict Lock → ℕ → Lock × Registry
lock_in key loop locks next = elim (get key locks) [
  | some lock ↦ (lock, record { loop = some loop; locks = locks; next = next })
  | none ↦
      let lock : Lock = record { ident = next; locked = false } in
      (lock, record { loop = some loop; locks = put key lock locks; next = next + 1 })
]

unfoldable pub telegram_source_lock : String → ℕ → Registry → Lock × Registry
unfolding evict_stale_locks
telegram_source_lock source loop r =
    lock_in (or_text source "_unknown_") loop
      (evict_stale_locks (if same_loop r.loop loop then r.locks else [])) r.next
