-- ===== src/Saving/Deliverable.antt =====
-- A delivery with the guard of the missing episodes, `_mark_unneeded_resource_skipped` of
-- delivery/service.py. Parameters: the subscription of an id, and the column `source` of a row.
use togo.Common.{ℕ, ◌≡◌, refl, String, true, false, Option, some, [], inter, pair_equal}
use togo.Delivery.{Resource}
use togo.Delivery.Service.{
  Environment, World, load_resource, existing_effective_delivery, perform_delivery,
  deliver_resource_url, deliver_locked, deliver_resource,
}
use togo.Episodes.{is_tv, is_none, missing_episode_keys}
use togo.Library.{Tracked}
use togo.Matching.{Texts, Result, named_episodes}
use togo.Matching.Decision.{is_skip_reason, resource_allowed}
use togo.Matching.Guarded.{resource_allowed-missing}

module _ (t : Texts) (subscription_of : ℕ → Option Tracked) (source_of : Resource → String) where
  -- The `SearchResult` of a row.
  abbrev pub result_of : Resource → Result
  result_of r = record {
    title = r.title;
    url = r.url;
    source = source_of r;
    context = r.title;
    priority = 0;
  }

  abbrev pub guarded_by_episodes : Environment → Environment
  guarded_by_episodes env = record env {
    is_allowed = λ r.
        resource_allowed t (subscription_of r.subscription_id) (result_of r) (some is_skip_reason);
  }

  abbrev pub unguarded : Environment → Environment
  unguarded env = record env { is_allowed = λ r. true }

  -- The guard makes no difference to the delivery of a row whose subscription is to a series and which
  -- names an episode that is missing, while no comparison raises.
  pub deliver_resource-guarded_by_episodes :
      (env : Environment) (s : Tracked) (r : Resource) (now i : ℕ) (w : World)
      → load_resource i w ≡ some r
      → subscription_of r.subscription_id ≡ some s
      → t.raises s (result_of r) ≡ false
      → is_tv s.base.media_type ≡ true
      → is_none
          (inter (named_episodes t s (result_of r) []) (missing_episode_keys t.fullmatch s.base))
        ≡ false
      → deliver_resource (guarded_by_episodes env) now i w
        ≡ deliver_resource (unguarded env) now i w
  unfolding deliver_resource deliver_locked existing_effective_delivery perform_delivery
      deliver_resource_url
  deliver_resource-guarded_by_episodes env s r now i w loaded subscribed quiet series missing =
      rw (loaded, subscribed, resource_allowed-missing t s (result_of r) quiet series missing) refl
