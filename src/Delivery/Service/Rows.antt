-- ===== src/Delivery/Service/Rows.antt =====
-- Rows that are found by their id, before and after an UPDATE.
use mathlib.Core.Option
use togo.Common.{
  ℕ, ◌≡◌, Bool, false, Option, none, some, if◌then◌else◌, first?, first?-update_where,
}
use togo.Delivery.{Resource, has_id, is_delivered}
use togo.Delivery.Service.{World, on_row}

abbrev pub row : ℕ → World → Option Resource
row i w = first? (has_id i) w.rows

abbrev pub delivered_row : Option Resource → Bool
delivered_row none = false
delivered_row (some r) = is_delivered r.status

-- An UPDATE that writes no id.
pub row-on_row :
    (i : ℕ) (p : Resource → Bool) (f : Resource → Resource) (w : World)
    → ((r : Resource) → (f r).id ≡ r.id)
    → row i (on_row p f w) ≡ Option.map (λ r. if p r then f r else r) (row i w)
row-on_row i p f w same = first?-update_where (has_id i) p f w.rows (λ r. rw (same r))
