-- ===== src/RequestGate/Bounds.antt =====
-- The interval keeps to its limits, and a FloodWait holds back who comes after it.
use togo.Common.{
  ℕ, ◌+◌, ◌≤◌, ◌≡◌, String, true, ◌&&◌, Option, none, some, List, [], ◌∷◌, arith, inl, inr,
  Bool-cases, leb, ltb, All,
}
use togo.RequestGate.{
  Gate, is_loop, ensure_lock, wakes_at, passed, pass, note_success, wait_for, note_flood_wait,
  Caught, is_flood, or_five, note_error,
}

some-injective : (a b : ℕ) → some a ≡ some b → a ≡ b
some-injective a b h = cc

-- The limits that a gate is made with, and what it has between its calls.
abbrev pub IsSpaced : Gate → Type 0
IsSpaced g =
    (g.default_interval ≤ g.max_interval)
    × (g.default_interval ≤ g.current_interval)
    × (g.current_interval ≤ g.max_interval)

-- What happens to a gate. Which loop passes, and when, is open.
pub data Event : Type 0 where
  passes : ℕ → ℕ → Event
  succeeds : Event
  fails : Option Caught → ℕ → Event

passed-IsSpaced : (now : ℕ) (g : Gate) → IsSpaced g → IsSpaced (passed now g)
passed-IsSpaced now g (limits, low, high) = ground (arith, limits, low, high)

note_flood_wait-IsSpaced :
    (length : Option ℕ) (now : ℕ) (g : Gate) → IsSpaced g → IsSpaced (note_flood_wait length now g)
unfolding note_flood_wait
note_flood_wait-IsSpaced length now g (limits, low, high) =
    (limits, ground (arith, limits, low), ground (arith, limits))

locked-IsSpaced : (loop : ℕ) (g : Gate) → IsSpaced g → IsSpaced (ensure_lock loop g)
locked-IsSpaced loop g h = elim (Bool-cases (is_loop loop g.lock_loop)) [
  | inl e ↦ rw e h
  | inr e ↦ rw e h
]

pass-IsSpaced : (loop now : ℕ) (g : Gate) → IsSpaced g → IsSpaced (pass loop now g)
unfolding pass
pass-IsSpaced loop now g h = passed-IsSpaced now (ensure_lock loop g) (locked-IsSpaced loop g h)

note_success-IsSpaced : (g : Gate) → IsSpaced g → IsSpaced (note_success g)
unfolding note_success
note_success-IsSpaced g (limits, low, high) = ground (arith, limits, low, high)

module _ (casefold upper : String → String) where
  abbrev pub react : Event → Gate → Gate
  react (passes loop now) g = pass loop now g
  react succeeds g = note_success g
  react (fails e now) g = note_error casefold upper e now g

  abbrev pub after_events : List Event → Gate → Gate
  after_events [] g = g
  after_events (e ∷ events) g = after_events events (react e g)

  react-IsSpaced : (e : Event) (g : Gate) → IsSpaced g → IsSpaced (react e g)
  unfolding note_error
  react-IsSpaced (passes loop now) g h = pass-IsSpaced loop now g h
  react-IsSpaced succeeds g h = note_success-IsSpaced g h
  react-IsSpaced (fails none now) g h = h
  react-IsSpaced (fails (some e) now) g h = elim (Bool-cases (is_flood casefold upper e)) [
    | inl f ↦ rw f (note_flood_wait-IsSpaced (or_five e.seconds_of) now g h)
    | inr f ↦ rw f h
  ]

  -- Whatever happens to it, a gate whose limits are in order keeps an interval between them.
  pub after_events-IsSpaced :
      (events : List Event) (g : Gate) → IsSpaced g → IsSpaced (after_events events g)
  after_events-IsSpaced [] g h = h
  after_events-IsSpaced (e ∷ events) g h =
      after_events-IsSpaced events (react e g) (react-IsSpaced e g h)

  -- Whether a gate on an event loop holds back until a time.
  abbrev HoldsBack : ℕ → ℕ → Gate → Type 0
  HoldsBack loop until g = (g.lock_loop ≡ some loop) × (until ≤ g.cooldown_until)

  -- Events of one event loop.
  abbrev pub OnLoop : ℕ → Event → Type 0
  OnLoop loop (passes l now) = l ≡ loop
  OnLoop loop succeeds = Unit
  OnLoop loop (fails e now) = Unit

  is_loop-same : (l loop : ℕ) (o : Option ℕ) → l ≡ loop → o ≡ some loop → is_loop l o ≡ true
  is_loop-same l loop none on same = cc
  is_loop-same l loop (some k) on same = ground (arith, on, some-injective k loop same)

  passed-HoldsBack :
      (loop until now : ℕ) (g : Gate) → HoldsBack loop until g → HoldsBack loop until (passed now g)
  passed-HoldsBack loop until now g (same, held) =
      elim (Bool-cases (ltb g.default_interval g.current_interval && leb g.cooldown_until now)) [
        | inl e ↦ rw e (same, held)
        | inr e ↦ rw e (same, held)
      ]

  react-HoldsBack :
      (loop until : ℕ) (e : Event) (g : Gate)
      → OnLoop loop e
      → HoldsBack loop until g
      → HoldsBack loop until (react e g)
  unfolding pass note_success note_error note_flood_wait
  react-HoldsBack loop until (passes l now) g on (same, held) =
      let here : is_loop l g.lock_loop ≡ true = is_loop-same l loop g.lock_loop on same in
      rw here (passed-HoldsBack loop until now g (same, held))
  react-HoldsBack loop until succeeds g on (same, held) = ground (arith, same, held)
  react-HoldsBack loop until (fails none now) g on h = h
  react-HoldsBack loop until (fails (some e) now) g on (same, held) =
      elim (Bool-cases (is_flood casefold upper e)) [
        | inl f ↦ rw f (same, omega (arith, held))
        | inr f ↦ rw f (same, held)
      ]

  flood-HoldsBack :
      (loop now : ℕ) (length : Option ℕ) (g : Gate)
      → g.lock_loop ≡ some loop
      → HoldsBack loop (now + wait_for length) (note_flood_wait length now g)
  unfolding note_flood_wait
  flood-HoldsBack loop now length g same = (same, omega arith)

  after_events-HoldsBack :
      (loop until : ℕ) (events : List Event) (g : Gate)
      → All (OnLoop loop) events
      → HoldsBack loop until g
      → HoldsBack loop until (after_events events g)
  after_events-HoldsBack loop until [] g on h = h
  after_events-HoldsBack loop until (e ∷ events) g on h =
      after_events-HoldsBack loop until events (react e g) on.1
        (react-HoldsBack loop until e g on.0 h)

  -- After a FloodWait a request that comes later, on the event loop that last passed the gate, does not
  -- go on before the wait is over, whatever passes, succeeds or fails on that loop in between.
  pub wakes_at-note_flood_wait :
      (loop now later : ℕ) (length : Option ℕ) (events : List Event) (g : Gate)
      → g.lock_loop ≡ some loop
      → All (OnLoop loop) events
      → now + wait_for length ≤ wakes_at later (after_events events (note_flood_wait length now g))
  unfolding wakes_at
  wakes_at-note_flood_wait loop now later length events g same on =
      let held =
        after_events-HoldsBack loop (now + wait_for length) events (note_flood_wait length now g) on
          (flood-HoldsBack loop now length g same) in
      omega (arith, held.1)
