-- ===== src/Saving/Fallback.antt =====
-- search/selection_fallback.py: the results of a source are saved and delivered one after the other,
-- until one is delivered. A candidate stands with its place in the list of its source, which the
-- stable sort goes by where the keys are equal. `deliver` is the callback; like any other task it may
-- change the rows of the table while it runs.
use togo.Common.{
  ℕ, zero, suc, String, Bool, true, false, not, ◌&&◌, ◌||◌, Option, none, some, List, [], ◌∷◌, ◌++◌,
  if◌then◌else◌, any, or_else, str_eq, ltb, length, update_where,
}
use togo.Delivery.{Resource, Status, pending, delivery_failed_retryable, has_id}
use togo.Library.{Tracked}
use togo.Matching.{Texts, Result}
use togo.Saving.{Links, Seen, existing_resource_rows}
use togo.Saving.Insert.{
  Step, World, insert_resource_safely, subscription_115_resources, fallback_candidate_blocked,
}

abbrev pub Candidate : Type 0
Candidate = ℕ × Result

-- The answer of the callback.
pub data Answer : Type 0 where
  delivered_now not_delivered : Answer
  deliver_raised : String → Answer

-- `created`, `attempted_urls` and the tables.
pub record Attempts : Type 0 where
  pub created : List ℕ
  pub attempted_urls : List String
  pub world : World

abbrev pub is_url : String → List String → Bool
is_url url urls = any (str_eq url) urls

abbrev pub numbered : ℕ → List Result → List Candidate
numbered n [] = []
numbered n (r ∷ results) = (n, r) ∷ numbered (suc n) results

abbrev pub is_pending : Status → Bool
is_pending pending = true
is_pending s = false

abbrev pub marked_failed : ℕ → Option String → Resource → Resource
marked_failed now error r = record r {
  status = delivery_failed_retryable;
  last_error = some (or_else error (or_else r.last_error "磁力投递失败，自动尝试下一候选"));
  updated_at = some now;
}

abbrev pub mark_candidate_delivery_failed_if_pending :
    ℕ → ℕ → Option String → List Resource → List Resource
mark_candidate_delivery_failed_if_pending now i error rows =
    update_where (λ r. has_id i r && is_pending r.status) (marked_failed now error) rows

-- What `_attach_first_from_group` returns, with the candidates as they are then.
pub record Attached : Type 0 where
  pub item : Option (ℕ × Result)
  pub candidates : List Candidate
  pub world : World

module _ (t : Texts) (l : Links) (raises : Step → Result → Bool)
    (deliver : ℕ → List Resource → Answer × List Resource) where
  abbrev pub comes_before : Tracked → Candidate → Candidate → Bool
  comes_before s (i, r) (j, q) = l.sorts_before s r q || not (l.sorts_before s q r) && ltb i j

  abbrev pub insert_candidate : Tracked → Candidate → List Candidate → List Candidate
  insert_candidate s c [] = c ∷ []
  insert_candidate s c (d ∷ candidates) =
      let rest = insert_candidate s c candidates in
      if comes_before s c d then c ∷ d ∷ candidates else d ∷ rest

  abbrev pub fallback_result_candidates : Tracked → List Candidate → List Candidate
  fallback_result_candidates s [] = []
  fallback_result_candidates s (c ∷ candidates) =
      insert_candidate s c (fallback_result_candidates s candidates)

  abbrev pub passed_over : Candidate → Attached → Attached
  passed_over c a = record a { candidates = c ∷ a.candidates }

  abbrev pub taken : ℕ → ℕ → Result → List Candidate → World → ℕ → Attached
  taken now i r candidates w item = record {
    item = some (item, r);
    candidates = (i, r) ∷ candidates;
    world = record w { last_checked_at = some now };
  }

  -- After a candidate was tried: the next ones are tried where it was not saved.
  abbrev pub after_saving :
      ℕ → ℕ → List Candidate → (World → Attached) → Option ℕ × Result × World → Attached
  after_saving now i candidates rest (none, r, w) = passed_over (i, r) (rest w)
  after_saving now i candidates rest (some item, r, w) = taken now i r candidates w item

  -- The loop over the candidates of `_attach_first_from_group`.
  unfoldable pub first_saved :
      ℕ → Tracked → List String → List Seen → List Candidate → World → Attached
  first_saved now s excluded existing_115 [] w = record { item = none; candidates = []; world = w }
  first_saved now s excluded existing_115 ((i, r) ∷ candidates) w =
      let rest = first_saved now s excluded existing_115 candidates in
      if is_url r.url excluded || fallback_candidate_blocked t l raises s r existing_115
      then passed_over (i, r) (rest w)
      else after_saving now i candidates rest (insert_resource_safely t l raises now s r w)

  unfoldable pub attach_first_from_group :
      ℕ → Tracked → List Candidate → List String → World → Attached
  unfolding first_saved
  attach_first_from_group now s candidates excluded w =
      let existing = existing_resource_rows s.base.id w.rows in
      let existing_115 = subscription_115_resources t l raises s.base.id w.rows in
      first_saved now s excluded existing_115 (fallback_result_candidates s candidates)
        (record w { seen = existing })

  abbrev pub is_delivery : Answer → Bool
  is_delivery delivered_now = true
  is_delivery a = false

  abbrev pub error_of : Answer → Option String
  error_of (deliver_raised error) = some error
  error_of a = none

  -- `_deliver_fallback_candidate`
  abbrev pub after_delivery : ℕ → ℕ → World → Answer × List Resource → Bool × World
  after_delivery now item w (answer, rows) =
      if is_delivery answer then (true, record w { rows = rows }) else (
        false,
        record w {
          rows = mark_candidate_delivery_failed_if_pending now item (error_of answer) rows;
        },
      )

  abbrev pub deliver_fallback_candidate : ℕ → ℕ → World → Bool × World
  deliver_fallback_candidate now item w = after_delivery now item w (deliver item w.rows)

  -- Whether a candidate was delivered, and the attempts; `none` when the turns did not suffice.
  abbrev pub Ending : Type 0
  Ending = Option (Bool × Attempts)

  abbrev pub tried : Attempts → ℕ → Result → World → Attempts
  tried a item r w = record {
    created = a.created ++ item ∷ [];
    attempted_urls = r.url ∷ a.attempted_urls;
    world = w;
  }

  abbrev pub after_attempt : Attempts → ℕ → Result → (Attempts → Ending) → Bool × World → Ending
  after_attempt a item r rest (true, w) = some (true, tried a item r w)
  after_attempt a item r rest (false, w) = rest (tried a item r w)

  abbrev pub after_turn :
      ℕ
      → Attempts
      → (List Candidate → Attempts → Ending)
      → Option (ℕ × Result)
      → List Candidate
      → World
      → Ending
  after_turn now a rest none candidates w = some (false, record a { world = w })
  after_turn now a rest (some (item, r)) candidates w =
      after_attempt a item r (rest candidates) (deliver_fallback_candidate now item w)

  -- `while True`, for at most so many turns.
  unfoldable pub attach_from_group : ℕ → Tracked → ℕ → List Candidate → Attempts → Ending
  unfolding attach_first_from_group
  attach_from_group now s zero candidates a = none
  attach_from_group now s (suc turns) candidates a =
      let attached = attach_first_from_group now s candidates a.attempted_urls a.world in
      after_turn now a (attach_from_group now s turns) attached.item attached.candidates
        attached.world

  -- The loop over the sources, each with its matched results and one turn more than it has results.
  abbrev pub next_group : (Attempts → Ending) → Ending → Ending
  next_group rest none = none
  next_group rest (some (true, a)) = some (true, a)
  next_group rest (some (false, a)) = rest a

  abbrev pub attach_from_groups : ℕ → Tracked → List (List Result) → Attempts → Ending
  attach_from_groups now s [] a = some (false, a)
  attach_from_groups now s (results ∷ groups) a =
      next_group (attach_from_groups now s groups)
        (attach_from_group now s (suc (length results)) (numbered 0 results) a)

  unfoldable pub attach_fallback_results_until_delivered :
      ℕ → Tracked → List (List Result) → World → Ending
  unfolding attach_from_group
  attach_fallback_results_until_delivered now s groups w =
      attach_from_groups now s groups (record { created = []; attempted_urls = []; world = w })
