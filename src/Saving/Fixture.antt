-- ===== src/Saving/Fixture.antt =====
-- A table with a delivered resource of another subscription, comparisons that raise nothing and a
-- delivery that never succeeds, as test data.
use togo.Common.{ℕ, Bool, false, none, List, [], ◌∷◌}
use togo.Delivery.{Resource, delivered}
use togo.Matching.{Result}
use togo.Saving.{Links}
use togo.Saving.Insert.{Step, World}
use togo.Saving.Fallback.{Answer, not_delivered}

abbrev pub links : Links
links = record {
  strip = λ s. s;
  normalize_115_share_link = λ s. s;
  matches_115 = λ s. false;
  parse_115_share_link = λ s. ("", "");
  magnet_hash = λ s. none;
  is_115_share_link = λ s. false;
  title_key = λ s. "";
  alike = λ a b. false;
  sorts_before = λ s r q. false;
}

abbrev pub quiet : Step → Result → Bool
quiet step r = false

abbrev pub refuse : ℕ → List Resource → Answer × List Resource
refuse i rows = (not_delivered, rows)

abbrev pub old_row : Resource
old_row = record {
  id = 4;
  subscription_id = 2;
  title = "b";
  url = "magnet:?xt=0";
  status = delivered;
  retry_count = 0;
  last_error = none;
  created_at = 1;
  updated_at = none;
}

abbrev pub world : World
world = record { rows = old_row ∷ []; next_id = 5; stats = []; last_checked_at = none; seen = [] }
