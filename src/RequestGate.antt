-- ===== src/RequestGate.antt =====
-- app/services/adapters/telegram/rate_limit.py: the gate that spaces the requests to Telegram and holds
-- them back after a FloodWait. An interval is a whole number of microseconds, so 0.85 and 0.9 of one
-- round down. A request that waits does so in two steps: it reads when it may go on and sleeps, and then
-- it passes, under the lock of its event loop. Parameters: Python's `casefold` and `upper`.
use togo.Common.{
  ℕ, ◌+◌, ◌*◌, ◌/◌, String, Bool, true, false, not, ◌&&◌, ◌||◌, Option, none, some, if◌then◌else◌,
  leb, ltb, ◌==◌, min, max, seconds,
}
use togo.Matching.{contains}
pub mod Bounds
mod Examples

pub record Gate : Type 0 where
  pub default_interval : ℕ
  pub max_interval : ℕ
  pub current_interval : ℕ
  pub lock_loop : Option ℕ
  pub next_at : ℕ
  pub cooldown_until : ℕ
  pub flood_events : ℕ

-- `TelegramRequestGate(…)`
abbrev pub new_gate : ℕ → ℕ → ℕ → Gate
new_gate min_interval max_interval default_interval = record {
  default_interval = default_interval;
  max_interval = max min_interval max_interval;
  current_interval = default_interval;
  lock_loop = none;
  next_at = 0;
  cooldown_until = 0;
  flood_events = 0;
}

abbrev pub is_loop : ℕ → Option ℕ → Bool
is_loop loop none = false
is_loop loop (some l) = l == loop

-- `_ensure_lock`
abbrev pub ensure_lock : ℕ → Gate → Gate
ensure_lock loop g =
    if is_loop loop g.lock_loop
    then g
    else record g { lock_loop = some loop; next_at = 0; cooldown_until = 0 }

-- The first phase of `wait`: when a request that comes now goes on, if its sleep is exact.
unfoldable pub wakes_at : ℕ → Gate → ℕ
wakes_at now g = max now (max g.next_at g.cooldown_until)

abbrev pub eased : ℕ → Gate → Gate
eased percent g = record g {
  current_interval = max g.default_interval (g.current_interval * percent / 100);
}

abbrev pub passed : ℕ → Gate → Gate
passed now g =
    let h = record g { next_at = now + g.current_interval } in
    if ltb g.default_interval g.current_interval && leb g.cooldown_until now then eased 85 h else h

-- The second phase of `wait`.
unfoldable pub pass : ℕ → ℕ → Gate → Gate
pass loop now g = passed now (ensure_lock loop g)

unfoldable pub note_success : Gate → Gate
note_success g = if leb g.current_interval g.default_interval then g else eased 90 g

-- `float(seconds or 5.0)`, one second at least.
abbrev pub wait_for : Option ℕ → ℕ
wait_for none = seconds 5
wait_for (some n) = if n == 0 then seconds 5 else max (seconds 1) n

unfoldable pub note_flood_wait : Option ℕ → ℕ → Gate → Gate
note_flood_wait length now g =
    let until = max g.cooldown_until (now + wait_for length) in
    record g {
      flood_events = g.flood_events + 1;
      current_interval =
          min g.max_interval (max (max (g.current_interval * 2) (wait_for length / 10)) 200000);
      cooldown_until = until;
      next_at = max g.next_at until;
    }

-- An exception: its class, its text, and its attribute `seconds`, which may be there and be none.
pub record Caught : Type 0 where
  pub class_name : String
  pub text : String
  pub seconds_of : Option (Option ℕ)

abbrev pub has_seconds : Option (Option ℕ) → Bool
has_seconds none = false
has_seconds (some s) = true

abbrev pub or_five : Option (Option ℕ) → Option ℕ
or_five none = some (seconds 5)
or_five (some none) = some (seconds 5)
or_five (some (some n)) = some n

module _ (casefold upper : String → String) where
  abbrev pub is_flood : Caught → Bool
  is_flood e =
      contains e.class_name "FloodWait"
      || contains e.text "FloodWait"
      || contains (casefold e.text) "flood"
      || has_seconds e.seconds_of
      || contains e.class_name "RPCError" && contains (upper e.text) "FLOOD"

  abbrev pub noted : Caught → ℕ → Gate → Gate
  noted e now g = if is_flood e then note_flood_wait (or_five e.seconds_of) now g else g

  unfoldable pub note_error : Option Caught → ℕ → Gate → Gate
  unfolding note_flood_wait
  note_error none now g = g
  note_error (some e) now g = noted e now g
