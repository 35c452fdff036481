-- ===== src/Delivery/Service/Outcome.antt =====
-- What one call of `deliver_resource` answers and writes.
use togo.Common.{
  ℕ, ◌≡◌, refl, sym, subst, ◌∙◌, ap, Bool, true, false, Option, none, some, arith, ◌==◌, inl, inr,
  is_some, first?-passes, Bool-cases, Option-cases, ==_refl, String,
}
use togo.Delivery.{Resource, has_id, is_delivered, TextTables}
use togo.Delivery.Failure.{
  delivery_failed_status, classify_delivery_failure, status_of_kind, Kind, auth, flood, invalid,
  timeout, network, rate, temporary, final,
}
use togo.Delivery.Service.{
  Environment, World, load_resource, on_row, existing_effective_delivery, skipped_row,
  not_delivered_with_id, duplicate_row, updated_row, record_outcome, perform_delivery,
  deliver_locked, deliver_resource,
}
use togo.Delivery.Service.Rows.{row, delivered_row, row-on_row}

is_delivered-status_of_kind : (k : Kind) → is_delivered (status_of_kind k) ≡ false
is_delivered-status_of_kind auth = refl
is_delivered-status_of_kind flood = refl
is_delivered-status_of_kind invalid = refl
is_delivered-status_of_kind timeout = refl
is_delivered-status_of_kind network = refl
is_delivered-status_of_kind rate = refl
is_delivered-status_of_kind temporary = refl
is_delivered-status_of_kind final = refl

failed_is_not_delivered :
    (t : TextTables) (m : String) → is_delivered (delivery_failed_status t m) ≡ false
unfolding delivery_failed_status
failed_is_not_delivered t m = is_delivered-status_of_kind (classify_delivery_failure t m)

module _ (env : Environment) (now : ℕ) (r : Resource) (w : World) (here : row r.id w ≡ some r) where
  -- The row of an UPDATE that its WHERE meets, and that it leaves.
  written :
      (p : Resource → Bool) (f : Resource → Resource)
      → ((s : Resource) → (f s).id ≡ s.id)
      → p r ≡ true
      → row r.id (on_row p f w) ≡ some (f r)
  written p f same h = rw (row-on_row r.id p f w same, here, h) refl

  answer-record_outcome :
      (o : Bool × String)
      → (record_outcome env now r o w).0 ≡ delivered_row (row r.id (record_outcome env now r o w).1)
  answer-record_outcome (true, m) =
      rw (written (has_id r.id) (updated_row env true m now) (λ s. refl) (==_refl r.id)) refl
  answer-record_outcome (false, m) =
      rw (written (has_id r.id) (updated_row env false m now) (λ s. refl) (==_refl r.id))
        (sym (failed_is_not_delivered env.tables m))

  answer-deliver_locked :
      (deliver_locked env now r w).0 ≡ delivered_row (row r.id (deliver_locked env now r w).1)
  unfolding deliver_locked
  answer-deliver_locked = elim (Bool-cases (is_delivered r.status)) [
    | inl d ↦ rw (d, here, d) refl
    | inr d ↦ elim (Bool-cases (env.is_allowed r)) [
      | inr a ↦
          rw
            (
              d,
              a,
              written (not_delivered_with_id r.id) (skipped_row now) (λ s. refl)
                  (ground (arith, d, ==_refl r.id)),
            )
            refl
      | inl a ↦ elim (Bool-cases (is_some (existing_effective_delivery env r w))) [
        | inl x ↦
            rw (d, a, x, written (has_id r.id) (duplicate_row now) (λ s. refl) (==_refl r.id)) refl
        | inr x ↦ rw (d, a, x) (answer-record_outcome (perform_delivery env r w))
      ]
    ]
  ]

module _ (env : Environment) (now i : ℕ) where
  -- The answer of `deliver_resource` says whether the table has a delivered row of the id
  -- afterwards, on every branch: a success leaves one, and a failure leaves none.
  pub deliver_resource-delivered_row :
      (w : World)
      → (deliver_resource env now i w).0 ≡ delivered_row (row i (deliver_resource env now i w).1)
  unfolding deliver_resource load_resource
  deliver_resource-delivered_row w = go (row i w) refl
    where
      go :
          (o : Option Resource)
          → row i w ≡ o
          → (deliver_resource env now i w).0
            ≡ delivered_row (row i (deliver_resource env now i w).1)
      go none e = rw (e, deliver_resource, e) refl
      go (some r) e =
          let same : r.id ≡ i = ground (arith, first?-passes (has_id i) w.rows r e) in
          rw (e, deliver_resource)
            (subst
              (λ n.
                (deliver_locked env now r w).0
                ≡ delivered_row (row n (deliver_locked env now r w).1))
              same (answer-deliver_locked env now r w (ap (λ n. row n w) same ∙ e)))

  kept :
      (j : ℕ) (p : Resource → Bool) (f : Resource → Resource) (w : World)
      → ((s : Resource) → (f s).id ≡ s.id)
      → ((s : Resource) → has_id j s ≡ true → p s ≡ false)
      → row j (on_row p f w) ≡ row j w
  kept j p f w same skips = elim (Option-cases (row j w)) [
    | inl e ↦ rw (row-on_row j p f w same, e) refl
    | inr s ↦
        rw (row-on_row j p f w same, s.1, skips s.0 (first?-passes (has_id j) w.rows s.0 s.1)) refl
  ]

  kept-deliver_locked :
      (j : ℕ) (r : Resource) (w : World)
      → (j == r.id) ≡ false
      → row j (deliver_locked env now r w).1 ≡ row j w
  unfolding deliver_locked
  kept-deliver_locked j r w other =
      let a =
        kept j (not_delivered_with_id r.id) (skipped_row now) w (λ s. refl) (λ s h. ground arith) in
      let b = kept j (has_id r.id) (duplicate_row now) w (λ s. refl) (λ s h. ground arith) in
      let c =
        kept j (has_id r.id)
          (updated_row env (perform_delivery env r w).0 (perform_delivery env r w).1 now) w
          (λ s. refl) (λ s h. ground arith) in
      elim (Bool-cases (is_delivered r.status)) [
        | inl d ↦ rw d refl
        | inr d ↦ elim (Bool-cases (env.is_allowed r)) [
          | inr x ↦ rw (d, x) a
          | inl x ↦ elim (Bool-cases (is_some (existing_effective_delivery env r w))) [
            | inl y ↦ rw (d, x, y) b
            | inr y ↦ rw (d, x, y) c
          ]
        ]
      ]

  -- `deliver_resource` leaves the row of every other id as it was.
  pub deliver_resource-others :
      (j : ℕ) (w : World) → (j == i) ≡ false → row j (deliver_resource env now i w).1 ≡ row j w
  unfolding deliver_resource load_resource
  deliver_resource-others j w other = go (row i w) refl
    where
      go : (o : Option Resource) → row i w ≡ o → row j (deliver_resource env now i w).1 ≡ row j w
      go none e = rw (e, deliver_resource) refl
      go (some r) e =
          let same : r.id ≡ i = ground (arith, first?-passes (has_id i) w.rows r e) in
          rw (e, deliver_resource) (kept-deliver_locked j r w (rw same other))
