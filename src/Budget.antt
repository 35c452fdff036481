-- ===== src/Budget.antt =====
-- app/services/sources/haisou/budget.py: the budget of paid API calls, by rolling windows, and the
-- two caches of their answers. Times are those of the monotonic clock. Each function of the source that holds `_LOCK` is one atomic step here.
pub mod Window
pub mod Cache
mod Examples
use togo.Common.{
  seconds, ℕ, ◌+◌, ◌-◌, String, Bool, true, false, ◌||◌, Option, none, some, List, [], ◌∷◌, leb,
  ltb, ◌==◌, if◌then◌else◌, length, take, Dict, get, put, pop, keys, pop_all,
}

abbrev pub window : ℕ
window = seconds 3600

abbrev pub max_search : ℕ
max_search = 40

abbrev pub max_validate : ℕ
max_validate = 60

pub record Budget : Type 0 where
  pub search_calls : ℕ
  pub validate_calls : ℕ
  pub window_started : ℕ

abbrev pub fresh : Budget
fresh = record { search_calls = 0; validate_calls = 0; window_started = 0 }

-- `_roll_window`
unfoldable pub roll_window : ℕ → Budget → Budget
roll_window now b =
    if b.window_started == 0 || leb (b.window_started + window) now
    then record { search_calls = 0; validate_calls = 0; window_started = now }
    else b

-- The part of `acquire_haisou_search_slot` that holds the lock, and the whole of it.
unfoldable pub take_search : Budget → Bool × Budget
take_search b =
    if leb max_search b.search_calls
    then (false, b)
    else (true, record b { search_calls = b.search_calls + 1 })

unfoldable pub acquire_search_slot : ℕ → Budget → Bool × Budget
unfolding roll_window take_search
acquire_search_slot now b = take_search (roll_window now b)

unfoldable pub take_validate : Budget → Bool × Budget
take_validate b =
    if leb max_validate b.validate_calls
    then (false, b)
    else (true, record b { validate_calls = b.validate_calls + 1 })

unfoldable pub acquire_validate_slot : ℕ → Budget → Bool × Budget
unfolding roll_window take_validate
acquire_validate_slot now b = take_validate (roll_window now b)

unfoldable pub allow_search : ℕ → Budget → Bool × Budget
unfolding roll_window
allow_search now b = let b' = roll_window now b in (ltb b'.search_calls max_search, b')

unfoldable pub allow_validate : ℕ → Budget → Bool × Budget
unfolding roll_window
allow_validate now b = let b' = roll_window now b in (ltb b'.validate_calls max_validate, b')

unfoldable pub note_search : ℕ → Budget → Budget
unfolding roll_window
note_search now b = let b' = roll_window now b in record b' { search_calls = b'.search_calls + 1 }

unfoldable pub note_validate : ℕ → Budget → Budget
unfolding roll_window
note_validate now b =
    let b' = roll_window now b in record b' { validate_calls = b'.validate_calls + 1 }

-- A cached answer and the time at which it expires.
abbrev pub Store : Type 0 → Type 0
Store V = Dict (ℕ × V)

abbrev pub cache_max : ℕ
cache_max = 256

-- `max(1, _CACHE_MAX // 8)`
abbrev pub sweep : ℕ
sweep = 32

module _ {V : Type 0} where
  unfoldable pub cache_get : String → ℕ → Store V → Option V × Store V
  cache_get key now store = elim (get key store) [
    | none ↦ (none, store)
    | some (expires, value) ↦ if leb expires now then (none, pop key store) else (some value, store)
  ]

  -- The expired ones among some pairs.
  abbrev pub expired_keys : ℕ → Store V → List String
  expired_keys now [] = []
  expired_keys now ((k, (expires, v)) ∷ d) =
      let rest = expired_keys now d in if leb expires now then k ∷ rest else rest

  -- The two sweeps over the oldest pairs that make room.
  abbrev pub drop_expired : ℕ → Store V → Store V
  drop_expired now store = pop_all (expired_keys now (take sweep store)) store

  abbrev pub drop_oldest : Store V → Store V
  drop_oldest store =
      if leb cache_max (length store) then pop_all (keys (take sweep store)) store else store

  unfoldable pub cache_set : ℕ → String → V → ℕ → Store V → Store V
  cache_set ttl key value now store =
      put key (now + ttl, value)
        (if leb cache_max (length store) then drop_oldest (drop_expired now store) else store)
