-- ===== src/RequestGate/Examples.antt =====
-- A FloodWait of three seconds at a gate: tests and worked instances.
use togo.Common.{◌+◌, ◌≤◌, ◌≡◌, refl, arith, String, some, List, [], ◌∷◌, seconds}
use togo.RequestGate.{Gate, new_gate, wakes_at, pass, wait_for, note_flood_wait, Caught, note_error}
use togo.RequestGate.Bounds.{
  IsSpaced, Event, passes, succeeds, fails, after_events, after_events-IsSpaced,
  wakes_at-note_flood_wait,
}

abbrev same_text : String → String
same_text s = s

-- `telegram_request_gate`, once a request has passed.
abbrev gate : Gate
gate = pass 7 0 (new_gate 50000 (seconds 2) 50000)

abbrev flood : Caught
flood = record { class_name = "FloodWaitError"; text = ""; seconds_of = some (some (seconds 3)) }

abbrev events : List Event
events = succeeds ∷ passes 7 (seconds 1) ∷ fails (some flood) (seconds 1) ∷ []

test_together : (wakes_at 10 gate ≡ 50000) × (wakes_at 20 gate ≡ 50000)
unfolding wakes_at pass
test_together = (refl, refl)

test_error : (note_error same_text same_text (some flood) 0 gate).current_interval ≡ 300000
unfolding note_error note_flood_wait pass
test_error = refl

after_events-IsSpaced_example : IsSpaced (after_events same_text same_text events gate)
unfolding pass
after_events-IsSpaced_example =
    after_events-IsSpaced same_text same_text events gate (omega arith, omega arith, omega arith)

wakes_at-note_flood_wait_example :
    seconds 4 + wait_for (some (seconds 3))
    ≤ wakes_at (seconds 5) (
        after_events same_text same_text events
          (note_flood_wait (some (seconds 3)) (seconds 4) gate))
unfolding pass
wakes_at-note_flood_wait_example =
    wakes_at-note_flood_wait same_text same_text 7 (seconds 4) (seconds 5) (some (seconds 3)) events
      gate refl (tt, (refl, (tt, tt)))
