-- ===== src/Delivery/Service/Stale.antt =====
-- Two calls for one row, of which both read the row before either takes the lock of its key.
use togo.Common.{
  ℕ, ◌≡◌, refl, true, false, List, ◌∷◌, inl, inr, is_some, Option-cases, update_where,
  first?-update_where-skips,
}
use togo.Delivery.{Resource, has_id, is_delivered}
use togo.Delivery.Service.{
  Environment, World, Key, existing_effective_delivery, on_row, by_url, by_key, under_key,
  delivered_at, delivered_under, updated_row, perform_delivery, deliver_locked,
}

module _ (env : Environment) (r : Resource) (f : Resource → Resource)
    (same : (s : Resource) → (f s).id ≡ s.id) where
  by_url-own :
      (key : Key) (rows : List Resource)
      → by_url r.id key (update_where (has_id r.id) f rows) ≡ by_url r.id key rows
  by_url-own (kind, value) rows =
      rw
        (first?-update_where-skips (delivered_at r.id value) (has_id r.id) f rows (λ s h. rw h refl)
          (λ s h. rw (same s, h) refl))
        refl

  by_key-own :
      (key : Key) (rows : List Resource)
      → by_key env r.id key (update_where (has_id r.id) f rows) ≡ by_key env r.id key rows
  by_key-own key rows =
      rw
        (
          by_url-own key rows,
          first?-update_where-skips (delivered_under env r.id key) (has_id r.id) f rows
              (λ s h. rw h refl) (λ s h. rw (same s, h) refl),
        )
        refl

  -- A row's own delivery does not stand in the way of the row.
  existing-own :
      (w : World)
      → existing_effective_delivery env r (on_row (has_id r.id) f w)
        ≡ existing_effective_delivery env r w
  unfolding existing_effective_delivery
  existing-own w = elim (Option-cases (env.dedupe_key r.url)) [
    | inl e ↦ rw (e, under_key) refl
    | inr k ↦ rw (k.1, under_key) (by_key-own k.0 w.rows)
  ]

module _ (env : Environment) (r : Resource) where
  tries :
      (now : ℕ) (w : World)
      → is_delivered r.status ≡ false
      → env.is_allowed r ≡ true
      → is_some (existing_effective_delivery env r w) ≡ false
      → (deliver_locked env now r w).1.tried ≡ (r.id, (perform_delivery env r w).0) ∷ w.tried
  unfolding deliver_locked
  tries now w d a x = rw (d, a, x) refl

  -- Two calls for one row that both read it before it was delivered: if it is allowed and no other
  -- delivered row has its key, both of them make the delivery, also after the first one's success.
  pub deliver_locked-stale :
      (now later : ℕ) (w : World)
      → is_delivered r.status ≡ false
      → env.is_allowed r ≡ true
      → is_some (existing_effective_delivery env r w) ≡ false
      → let w' = (deliver_locked env now r w).1 in
        (deliver_locked env later r w').1.tried
        ≡ (r.id, (perform_delivery env r w').0) ∷ (r.id, (perform_delivery env r w).0) ∷ w.tried
  unfolding deliver_locked
  deliver_locked-stale now later w d a x =
      let o = perform_delivery env r w in
      let own = existing-own env r (updated_row env o.0 o.1 now) (λ s. refl) w in
      rw (d, a, x, own, x) refl
