-- ===== src/Saving/Realtime.antt =====
-- attach/service.py and attach/match.py: results that come in while the program listens are saved for
-- each subscription that they match, at most one of those from feeds and magnet sites.
use togo.Common.{
  ℕ, Bool, true, false, not, ◌&&◌, ◌||◌, Option, none, some, List, [], ◌∷◌, if◌then◌else◌, is_some,
  ltb,
}
use togo.Delivery.{pending}
use togo.Library.{Tracked}
use togo.Matching.{Texts, Result}
use togo.Matching.Decision.{accepted, decide_resource_candidate}
use togo.Saving.{Links, Seen, existing_resource_rows}
use togo.Saving.Insert.{
  Step, World, insert_resource_safely, subscription_115_resources, fallback_candidate_blocked,
  is_fallback_source,
}

-- `fallback_matched_priority`, `fallback_attached` and `existing_115`.
pub record Progress : Type 0 where
  pub matched_priority : Option ℕ
  pub fallback_attached : Bool
  pub existing_115 : List Seen

-- The resources that were made, with their results, and the tables.
abbrev pub Attachment : Type 0
Attachment = List (ℕ × Result) × World

abbrev pub with_item : ℕ → Result → Attachment → Attachment
with_item item r (made, w) = ((item, r) ∷ made, w)

-- `if is_fallback and fallback_matched_priority is None: …`
abbrev pub note_priority : Bool → Result → Progress → Progress
note_priority is_fallback r p =
    if is_fallback && not (is_some p.matched_priority)
    then record p { matched_priority = some r.priority }
    else p

abbrev pub below : ℕ → Option ℕ → Bool
below n none = false
below n (some m) = ltb n m

module _ (t : Texts) (l : Links) (raises : Step → Result → Bool) where
  -- `_result_matches_subscription`
  abbrev pub result_is_accepted : Tracked → Result → Bool
  result_is_accepted s r = not (t.raises s r) && accepted (decide_resource_candidate t s r [])

  abbrev pub note_115 : Result → Progress → Progress
  note_115 r p =
      if l.matches_115 r.url
      then record p {
        existing_115 = record { title = r.title; url = r.url; status = pending } ∷ p.existing_115;
      }
      else p

  abbrev pub note_attached : Bool → Progress → Progress
  note_attached is_fallback p = if is_fallback then record p { fallback_attached = true } else p

  -- From `insert_resource_safely` on.
  abbrev pub after_insert :
      Bool → Progress → (Progress → World → Attachment) → Option ℕ × Result × World → Attachment
  after_insert is_fallback p rest (none, r, w) = rest (note_priority is_fallback r p) w
  after_insert is_fallback p rest (some item, r, w) =
      with_item item r
        (rest (note_attached is_fallback (note_priority is_fallback r (note_115 r p))) w)

  unfoldable pub attach_in_order : ℕ → Tracked → List Result → Progress → World → Attachment
  attach_in_order now s [] p w = ([], w)
  attach_in_order now s (r ∷ results) p w =
      let rest = attach_in_order now s results in
      let is_fallback = is_fallback_source t l raises r in
      if is_fallback && (p.fallback_attached || below r.priority p.matched_priority)
      then rest p w
      else if not (result_is_accepted s r)
      then rest p w
      else if fallback_candidate_blocked t l raises s r p.existing_115
      then rest (note_priority is_fallback r p) w
      else after_insert is_fallback p rest (insert_resource_safely t l raises now s r w)

  -- `_attach_results_for_subscription`
  unfoldable pub attach_results_for_subscription : ℕ → Tracked → List Result → World → Attachment
  unfolding attach_in_order
  attach_results_for_subscription now s results w =
      attach_in_order now s results
        (record {
          matched_priority = none;
          fallback_attached = false;
          existing_115 = subscription_115_resources t l raises s.base.id w.rows;
        })
        (record w { seen = existing_resource_rows s.base.id w.rows })
