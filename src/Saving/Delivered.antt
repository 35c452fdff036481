-- ===== src/Saving/Delivered.antt =====
-- What the loop over the candidates leaves when it says that one was delivered, with any callback that
-- keeps its word, and with the delivery of `Delivery.Service` for the callback.
use togo.Common.{
  ℕ, zero, suc, ◌≡◌, refl, sym, ◌∙◌, Bool, true, false, Option, none, some, List, [], ◌∷◌, ◌++◌,
  first?, length,
}
use togo.Delivery.{Resource, has_id}
use togo.Delivery.Service
use togo.Delivery.Service.{Environment, deliver_resource}
use togo.Delivery.Service.Rows.{row, delivered_row}
use togo.Delivery.Service.Outcome.{deliver_resource-delivered_row}
use togo.Library.{Tracked}
use togo.Matching.{Texts, Result}
use togo.Saving.{Links}
use togo.Saving.Insert.{Step, World}
use togo.Saving.Fallback.{
  Candidate, Answer, delivered_now, not_delivered, deliver_raised, Attempts, after_delivery,
  after_attempt, after_turn, attach_first_from_group, attach_from_group, next_group,
  attach_from_groups, attach_fallback_results_until_delivered, numbered,
}

abbrev pub is_delivered_at : ℕ → List Resource → Bool
is_delivered_at i rows = delivered_row (first? (has_id i) rows)

abbrev pub says : Answer × List Resource → Bool
says (delivered_now, rows) = true
says (not_delivered, rows) = false
says (deliver_raised error, rows) = false

abbrev pub last_is_delivered : List ℕ → List Resource → Bool
last_is_delivered [] rows = false
last_is_delivered (i ∷ []) rows = is_delivered_at i rows
last_is_delivered (i ∷ j ∷ ids) rows = last_is_delivered (j ∷ ids) rows

-- If one is said to be delivered, the last resource that was made is.
abbrev pub keeps_word : Option (Bool × Attempts) → Bool
keeps_word none = true
keeps_word (some (false, a)) = true
keeps_word (some (true, a)) = last_is_delivered a.created a.world.rows

last_is_delivered-append :
    (ids : List ℕ) (i : ℕ) (rows : List Resource)
    → last_is_delivered (ids ++ i ∷ []) rows ≡ is_delivered_at i rows
last_is_delivered-append [] i rows = refl
last_is_delivered-append (j ∷ []) i rows = refl
last_is_delivered-append (j ∷ k ∷ ids) i rows = last_is_delivered-append (k ∷ ids) i rows

-- A callback that answers that it delivered leaves the row delivered.
abbrev pub KeepsWord : (ℕ → List Resource → Answer × List Resource) → Type 0
KeepsWord deliver =
    (i : ℕ) (rows : List Resource)
    → says (deliver i rows) ≡ true
    → is_delivered_at i (deliver i rows).1 ≡ true

module _ (t : Texts) (l : Links) (raises : Step → Result → Bool)
    (deliver : ℕ → List Resource → Answer × List Resource) (true_word : KeepsWord deliver) where
  attempt-keeps_word :
      (now : ℕ) (a : Attempts) (item : ℕ) (r : Result) (rest : Attempts → Option (Bool × Attempts))
      (w : World) (answer : Answer × List Resource)
      → (says answer ≡ true → is_delivered_at item answer.1 ≡ true)
      → ((b : Attempts) → keeps_word (rest b) ≡ true)
      → keeps_word (
          after_attempt t l raises deliver a item r rest
            (after_delivery t l raises deliver now item w answer))
        ≡ true
  attempt-keeps_word now a item r rest w (delivered_now, rows) kept next =
      last_is_delivered-append a.created item rows ∙ kept refl
  attempt-keeps_word now a item r rest w (not_delivered, rows) kept next = next _
  attempt-keeps_word now a item r rest w (deliver_raised error, rows) kept next = next _

  turn-keeps_word :
      (now : ℕ) (a : Attempts) (rest : List Candidate → Attempts → Option (Bool × Attempts))
      (item : Option (ℕ × Result)) (candidates : List Candidate) (w : World)
      → ((left : List Candidate) (b : Attempts) → keeps_word (rest left b) ≡ true)
      → keeps_word (after_turn t l raises deliver now a rest item candidates w) ≡ true
  turn-keeps_word now a rest none candidates w next = refl
  turn-keeps_word now a rest (some (item, r)) candidates w next =
      attempt-keeps_word now a item r (rest candidates) w (deliver item w.rows)
        (true_word item w.rows) (next candidates)

  group-keeps_word :
      (now : ℕ) (s : Tracked) (turns : ℕ) (candidates : List Candidate) (a : Attempts)
      → keeps_word (attach_from_group t l raises deliver now s turns candidates a) ≡ true
  unfolding attach_from_group
  group-keeps_word now s zero candidates a = refl
  group-keeps_word now s (suc turns) candidates a =
      let attached =
        attach_first_from_group t l raises deliver now s candidates a.attempted_urls a.world in
      turn-keeps_word now a (attach_from_group t l raises deliver now s turns) attached.item
        attached.candidates attached.world (group-keeps_word now s turns)

  next-keeps_word :
      (rest : Attempts → Option (Bool × Attempts)) (ending : Option (Bool × Attempts))
      → keeps_word ending ≡ true
      → ((b : Attempts) → keeps_word (rest b) ≡ true)
      → keeps_word (next_group t l raises deliver rest ending) ≡ true
  next-keeps_word rest none h next = refl
  next-keeps_word rest (some (true, a)) h next = h
  next-keeps_word rest (some (false, a)) h next = next a

  groups-keeps_word :
      (now : ℕ) (s : Tracked) (groups : List (List Result)) (a : Attempts)
      → keeps_word (attach_from_groups t l raises deliver now s groups a) ≡ true
  groups-keeps_word now s [] a = refl
  groups-keeps_word now s (results ∷ groups) a =
      next-keeps_word (attach_from_groups t l raises deliver now s groups)
        (attach_from_group t l raises deliver now s (suc (length results)) (numbered 0 results) a)
        (group-keeps_word now s (suc (length results)) (numbered 0 results) a)
        (groups-keeps_word now s groups)

  attach_fallback-keeps_word :
      (now : ℕ) (s : Tracked) (groups : List (List Result)) (w : World)
      → keeps_word (attach_fallback_results_until_delivered t l raises deliver now s groups w)
        ≡ true
  unfolding attach_fallback_results_until_delivered
  attach_fallback-keeps_word now s groups w =
      groups-keeps_word now s groups (record { created = []; attempted_urls = []; world = w })

abbrev pub answered_by : Bool × Service.World → Answer × List Resource
answered_by (true, w) = (delivered_now, w.rows)
answered_by (false, w) = (not_delivered, w.rows)

-- The callback of the search: `deliver_resource`, after the attempts in the list.
abbrev pub deliver_with :
    Environment → List (ℕ × Bool) → ℕ → ℕ → List Resource → Answer × List Resource
deliver_with env attempts now i rows =
    answered_by (deliver_resource env now i (record { rows = rows; tried = attempts }))

answered_by-delivered :
    (i : ℕ) (p : Bool × Service.World)
    → p.0 ≡ delivered_row (row i p.1)
    → says (answered_by p) ≡ true
    → is_delivered_at i (answered_by p).1 ≡ true
answered_by-delivered i (true, w) same h = sym same
answered_by-delivered i (false, w) same h = cc

-- When the search for a result that can be delivered, with `deliver_resource` for its callback, says
-- that one was delivered, the row of the last resource that it made is marked as delivered.
pub attach_fallback_results_until_delivered-delivers :
    (t : Texts) (l : Links) (raises : Step → Result → Bool) (env : Environment)
    (attempts : List (ℕ × Bool)) (now : ℕ) (s : Tracked) (groups : List (List Result)) (w : World)
    → keeps_word (
        attach_fallback_results_until_delivered t l raises
          (deliver_with env attempts now)
          now
          s
          groups
          w)
      ≡ true
attach_fallback_results_until_delivered-delivers t l raises env attempts now s groups w =
    attach_fallback-keeps_word t l raises (deliver_with env attempts now)
      (λ i rows.
        let start : Service.World = record { rows = rows; tried = attempts } in
        answered_by-delivered i (deliver_resource env now i start)
          (deliver_resource-delivered_row env now i start))
      now s groups w
