-- ===== src/Saving/Turns.antt =====
-- The loop over the candidates ends: each turn adds to the attempted links one that a candidate has.
use togo.Common.{
  ℕ, zero, suc, ◌+◌, ◌≤◌, ◌<◌, String, ◌≡◌, refl, sym, ◌∙◌, Bool, true, false, not, Option, none,
  some, List, [], ◌∷◌, arith, if◌then◌else◌, inl, inr, Bool-cases, length, length-append, eq_iff,
  count_where, leb,
}
use togo.Delivery.{Resource}
use togo.Library.{Tracked}
use togo.Matching.{Texts, Result}
use togo.Saving.{Links, Seen, existing_resource_rows}
use togo.Saving.Insert.{
  Step, World, insert_resource_safely, subscription_115_resources, fallback_candidate_blocked,
}
use togo.Saving.Fallback.{
  Candidate, Answer, Attempts, Attached, is_url, numbered, insert_candidate,
  fallback_result_candidates, after_saving, first_saved, attach_first_from_group, after_turn,
  after_attempt, attach_from_group, next_group, attach_from_groups,
  attach_fallback_results_until_delivered, deliver_fallback_candidate, tried,
}

-- The candidates that were not attempted.
abbrev fresh : List String → Candidate → Bool
fresh attempted (i, r) = not (is_url r.url attempted)

abbrev open_ones : List String → List Candidate → ℕ
open_ones attempted candidates = count_where (fresh attempted) candidates

abbrev one_if : Bool → ℕ
one_if b = if b then 1 else 0

-- The loop is over, with at most so many attempts.
abbrev pub ends_within : ℕ → Option (Bool × Attempts) → Bool
ends_within n none = false
ends_within n (some (ok, a)) = leb (length a.created) n

abbrev pub results_in : List (List Result) → ℕ
results_in [] = 0
results_in (results ∷ groups) = length results + results_in groups

-- After a turn fewer candidates are open, if one was saved.
abbrev Shrinks : List String → Option (ℕ × Result) → List Candidate → ℕ → Type 0
Shrinks attempted none candidates n = 0 ≤ n
Shrinks attempted (some (item, r)) candidates n = open_ones (r.url ∷ attempted) candidates < n

no_more_fresh :
    (url : String) (attempted : List String) (c : Candidate)
    → one_if (fresh (url ∷ attempted) c) ≤ one_if (fresh attempted c)
no_more_fresh url attempted (i, r) = ground arith

no_more_open :
    (url : String) (attempted : List String) (candidates : List Candidate)
    → open_ones (url ∷ attempted) candidates ≤ open_ones attempted candidates
no_more_open url attempted [] = omega arith
no_more_open url attempted (c ∷ candidates) =
    omega (arith, no_more_fresh url attempted c, no_more_open url attempted candidates)

open_ones-numbered :
    (attempted : List String) (n : ℕ) (results : List Result)
    → open_ones attempted (numbered n results) ≤ length results
open_ones-numbered attempted n [] = omega arith
open_ones-numbered attempted n (r ∷ results) =
    ground (arith, open_ones-numbered attempted (suc n) results)

module _ (t : Texts) (l : Links) (raises : Step → Result → Bool)
    (deliver : ℕ → List Resource → Answer × List Resource) where
  open_ones-insert :
      (s : Tracked) (attempted : List String) (c : Candidate) (candidates : List Candidate)
      → open_ones attempted (insert_candidate t l raises deliver s c candidates)
        ≡ open_ones attempted (c ∷ candidates)
  open_ones-insert s attempted c [] = refl
  open_ones-insert s attempted c (d ∷ candidates) =
      ground (arith, open_ones-insert s attempted c candidates)

  open_ones-sorted :
      (s : Tracked) (attempted : List String) (candidates : List Candidate)
      → open_ones attempted (fallback_result_candidates t l raises deliver s candidates)
        ≡ open_ones attempted candidates
  open_ones-sorted s attempted [] = refl
  open_ones-sorted s attempted (c ∷ candidates) =
      open_ones-insert s attempted c (fallback_result_candidates t l raises deliver s candidates)
      ∙ ground (arith, open_ones-sorted s attempted candidates)

  Shrinks-passed :
      (attempted : List String) (c : Candidate) (m : ℕ) (item : Option (ℕ × Result))
      (candidates : List Candidate) (n : ℕ)
      → ((url : String) → one_if (fresh (url ∷ attempted) c) ≤ m)
      → Shrinks attempted item candidates n
      → Shrinks attempted item (c ∷ candidates) (m + n)
  Shrinks-passed attempted c m none candidates n h fewer = omega arith
  Shrinks-passed attempted c m (some (item, r)) candidates n h fewer = omega (arith, h r.url)

  one_at_most : (b : Bool) → one_if b ≤ 1
  one_at_most b = ground arith

  Shrinks-after_saving :
      (now : ℕ) (attempted : List String) (i : ℕ) (q : Result) (candidates : List Candidate)
      (rest : World → Attached) (n : ℕ) (answer : Option ℕ × Result × World)
      → fresh attempted (i, q) ≡ true
      → open_ones attempted candidates ≡ n
      → ((w : World) → Shrinks attempted (rest w).item (rest w).candidates n)
      → Shrinks attempted
          (after_saving t l raises deliver now i candidates rest answer).item
          (after_saving t l raises deliver now i candidates rest answer).candidates
          (1 + n)
  Shrinks-after_saving now attempted i q candidates rest n (none, r, w) h same fewer =
      Shrinks-passed attempted (i, r) 1 (rest w).item (rest w).candidates n (λ url. one_at_most _)
        (fewer w)
  Shrinks-after_saving now attempted i q candidates rest n (some item, r, w) h same fewer =
      ground (arith, (eq_iff r.url r.url).1 refl, no_more_open r.url attempted candidates)

  first_saved-Shrinks :
      (now : ℕ) (s : Tracked) (attempted : List String) (existing_115 : List Seen)
      (candidates : List Candidate) (w : World)
      → let a = first_saved t l raises deliver now s attempted existing_115 candidates w in
        Shrinks attempted a.item a.candidates (open_ones attempted candidates)
  unfolding first_saved
  first_saved-Shrinks now s attempted existing_115 [] w = omega arith
  first_saved-Shrinks now s attempted existing_115 ((i, r) ∷ candidates) w =
      let rest = first_saved t l raises deliver now s attempted existing_115 candidates in
      let fewer = first_saved-Shrinks now s attempted existing_115 candidates in
      let n = open_ones attempted candidates in
      elim (Bool-cases (is_url r.url attempted)) [
        | inl old ↦ rw old (
            Shrinks-passed attempted (i, r) 0 (rest w).item (rest w).candidates n
              (λ url. ground (arith, old)) (fewer w))
        | inr new ↦ elim (Bool-cases (fallback_candidate_blocked t l raises s r existing_115)) [
          | inl blocked ↦
              rw (new, blocked)
                (Shrinks-passed attempted (i, r) 1 (rest w).item (rest w).candidates n
                  (λ url. one_at_most _) (fewer w))
          | inr open_one ↦
              rw (new, open_one)
                (Shrinks-after_saving now attempted i r candidates rest n
                  (insert_resource_safely t l raises now s r w) (rw new refl) refl fewer)
        ]
      ]

  attach_first-Shrinks :
      (now : ℕ) (s : Tracked) (attempted : List String) (candidates : List Candidate) (w : World)
      → let a = attach_first_from_group t l raises deliver now s candidates attempted w in
        Shrinks attempted a.item a.candidates (open_ones attempted candidates)
  unfolding attach_first_from_group
  attach_first-Shrinks now s attempted candidates w =
      rw (sym (open_ones-sorted s attempted candidates)) (
        first_saved-Shrinks now s attempted (subscription_115_resources t l raises s.base.id w.rows)
          (fallback_result_candidates t l raises deliver s candidates)
          (record w { seen = existing_resource_rows s.base.id w.rows }))

  after_attempt-ends :
      (n : ℕ) (a : Attempts) (item : ℕ) (r : Result) (rest : Attempts → Option (Bool × Attempts))
      (answer : Bool × World)
      → length a.created < n
      → ((w : World) → ends_within n (rest (tried t l raises deliver a item r w)) ≡ true)
      → ends_within n (after_attempt t l raises deliver a item r rest answer) ≡ true
  after_attempt-ends n a item r rest (true, w) room h =
      ground (arith, length-append a.created (item ∷ []))
  after_attempt-ends n a item r rest (false, w) room h = h w

  after_turn-ends :
      (n turns now : ℕ) (a : Attempts) (rest : List Candidate → Attempts → Option (Bool × Attempts))
      (item : Option (ℕ × Result)) (candidates : List Candidate) (w : World) (m : ℕ)
      → Shrinks a.attempted_urls item candidates m
      → length a.created + m ≤ n
      → m < suc turns
      → ((b : Attempts) (left : List Candidate)
          → length b.created + open_ones b.attempted_urls left ≤ n
          → open_ones b.attempted_urls left < turns
          → ends_within n (rest left b) ≡ true)
      → ends_within n (after_turn t l raises deliver now a rest item candidates w) ≡ true
  after_turn-ends n turns now a rest none candidates w m fewer room enough h = ground arith
  after_turn-ends n turns now a rest (some (item, r)) candidates w m fewer room enough h =
      after_attempt-ends n a item r (rest candidates)
        (deliver_fallback_candidate t l raises deliver now item w) (omega arith)
        (λ v.
          h (tried t l raises deliver a item r v) candidates
            (omega (arith, length-append a.created (item ∷ []))) (omega arith))

  attach_from_group-ends :
      (n now : ℕ) (s : Tracked) (turns : ℕ) (candidates : List Candidate) (a : Attempts)
      → length a.created + open_ones a.attempted_urls candidates ≤ n
      → open_ones a.attempted_urls candidates < turns
      → ends_within n (attach_from_group t l raises deliver now s turns candidates a) ≡ true
  unfolding attach_from_group
  attach_from_group-ends n now s zero candidates a room enough = ground arith
  attach_from_group-ends n now s (suc turns) candidates a room enough =
      let attached =
        attach_first_from_group t l raises deliver now s candidates a.attempted_urls a.world in
      after_turn-ends n turns now a (attach_from_group t l raises deliver now s turns) attached.item
        attached.candidates attached.world (open_ones a.attempted_urls candidates)
        (attach_first-Shrinks now s a.attempted_urls candidates a.world) room enough
        (λ b left. attach_from_group-ends n now s turns left b)

  next_group-ends :
      (n m : ℕ) (rest : Attempts → Option (Bool × Attempts)) (ending : Option (Bool × Attempts))
      → n ≤ m
      → ends_within n ending ≡ true
      → ((b : Attempts) → length b.created ≤ n → ends_within m (rest b) ≡ true)
      → ends_within m (next_group t l raises deliver rest ending) ≡ true
  next_group-ends n m rest none more h next = ground arith
  next_group-ends n m rest (some (true, a)) more h next = ground arith
  next_group-ends n m rest (some (false, a)) more h next = next a (ground arith)

  attach_from_groups-ends :
      (m now : ℕ) (s : Tracked) (groups : List (List Result)) (a : Attempts)
      → length a.created + results_in groups ≤ m
      → ends_within m (attach_from_groups t l raises deliver now s groups a) ≡ true
  attach_from_groups-ends m now s [] a room = ground arith
  attach_from_groups-ends m now s (results ∷ groups) a room =
      let n = length a.created + length results in
      let few = open_ones-numbered a.attempted_urls 0 results in
      next_group-ends n m (attach_from_groups t l raises deliver now s groups)
        (attach_from_group t l raises deliver now s (suc (length results)) (numbered 0 results) a)
        (omega arith)
        (attach_from_group-ends n now s (suc (length results)) (numbered 0 results) a (omega arith)
          (omega arith))
        (λ b room_now. attach_from_groups-ends m now s groups b (omega arith))

  -- Whatever the deliveries answer and do to the table, the search for a result that can be delivered
  -- ends: one turn more than a source has results is enough for it, and at most so many resources are
  -- made as all the sources have results.
  pub attach_fallback_results_until_delivered-ends :
      (now : ℕ) (s : Tracked) (groups : List (List Result)) (w : World)
      → ends_within
          (results_in groups)
          (attach_fallback_results_until_delivered t l raises deliver now s groups w)
        ≡ true
  unfolding attach_fallback_results_until_delivered
  attach_fallback_results_until_delivered-ends now s groups w =
      attach_from_groups-ends (results_in groups) now s groups
        (record { created = []; attempted_urls = []; world = w }) (omega arith)
