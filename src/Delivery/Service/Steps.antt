-- ===== src/Delivery/Service/Steps.antt =====
-- The steps of `deliver_resource`, one after the other, keep what Once says of the table.
use togo.Common.{
  ℕ, ◌≡◌, refl, ◌∙◌, ap, Bool, true, false, Option, none, some, List, [], ◌∷◌, arith, inl, inr,
  is_some, first?-passes, Bool-cases, ==_refl,
}
use togo.Delivery.{Resource, has_id, is_delivered}
use togo.Delivery.Service.{
  Environment, World, load_resource, on_row, existing_effective_delivery, skipped_row,
  not_delivered_with_id, duplicate_row, updated_row, record_outcome, perform_delivery,
  deliver_locked, deliver_resource, Key,
}
use togo.Delivery.Service.Rows.{row, delivered_row, row-on_row}
use togo.Delivery.Service.Once.{
  key_of, Once, Inv, IsMild, Inv-on_row, IsNew, Fresh-new, Done-mono, same_row,
}

module _ (env : Environment) (r : Resource) (w : World) where
  IsMild-skipped : (now : ℕ) → IsMild env (not_delivered_with_id r.id) (skipped_row now) w
  IsMild-skipped now = record {
    same_id = λ s. refl;
    same_url = λ s. refl;
    keeps = λ i s e d q. ground arith;
  }

  IsMild-duplicate : (now : ℕ) → IsMild env (has_id r.id) (duplicate_row now) w
  IsMild-duplicate now = record {
    same_id = λ s. refl;
    same_url = λ s. refl;
    keeps = λ i s e d q. refl;
  }

  IsMild-updated :
      (ok : Bool) (message : _) (now : ℕ)
      → row r.id w ≡ some r
      → is_delivered r.status ≡ false
      → IsMild env (has_id r.id) (updated_row env ok message now) w
  IsMild-updated ok message now e n = record {
    same_id = λ s. refl;
    same_url = λ s. refl;
    keeps = λ i s f d q.
        let same =
          same_row env r.id i w r s e f (ground (arith, q, first?-passes (has_id i) w.rows s f)) in
        cc;
  }

  -- What was tried with success is delivered afterwards.
  delivered-updated :
      (message : _) (now : ℕ)
      → row r.id w ≡ some r
      → delivered_row (row r.id (on_row (has_id r.id) (updated_row env true message now) w)) ≡ true
  delivered-updated message now e =
      rw
        (
          row-on_row r.id (has_id r.id) (updated_row env true message now) w (λ s. refl),
          e,
          ==_refl r.id,
        )
        refl

  Inv-record_outcome :
      (keys : ℕ → Option Key) (now : ℕ) (o : Bool × _)
      → Inv env keys w
      → IsNew env r w
      → Inv env keys (record_outcome env now r o w).1
  unfolding IsNew
  Inv-record_outcome keys now (true, message) inv new =
      let next =
        Inv-on_row env (has_id r.id) (updated_row env true message now) w
          (IsMild-updated true message now new.0 new.1) keys inv in
      record {
        agrees = next.agrees;
        once = (Fresh-new env r w w.tried keys inv.agrees new inv.done, inv.once);
        done = (
          delivered-updated message now new.0,
          Done-mono env (on_row (has_id r.id) (updated_row env true message now) w)
              (record_outcome env now r (true, message) w).1 w.tried (λ i d. d) next.done,
        );
      }
  Inv-record_outcome keys now (false, message) inv new =
      let next =
        Inv-on_row env (has_id r.id) (updated_row env false message now) w
          (IsMild-updated false message now new.0 new.1) keys inv in
      record {
        agrees = next.agrees;
        once = inv.once;
        done =
            Done-mono env (on_row (has_id r.id) (updated_row env false message now) w)
              (record_outcome env now r (false, message) w).1 w.tried (λ i d. d) next.done;
      }

  Inv-deliver_locked :
      (keys : ℕ → Option Key) (now : ℕ)
      → row r.id w ≡ some r
      → Inv env keys w
      → Inv env keys (deliver_locked env now r w).1
  unfolding deliver_locked IsNew
  Inv-deliver_locked keys now e inv = elim (Bool-cases (is_delivered r.status)) [
    | inl d ↦ rw d inv
    | inr d ↦ elim (Bool-cases (env.is_allowed r)) [
      | inr a ↦
          rw (d, a)
            (Inv-on_row env (not_delivered_with_id r.id) (skipped_row now) w (IsMild-skipped now)
              keys inv)
      | inl a ↦ elim (Bool-cases (is_some (existing_effective_delivery env r w))) [
        | inl x ↦
            rw (d, a, x)
              (Inv-on_row env (has_id r.id) (duplicate_row now) w (IsMild-duplicate now) keys inv)
        | inr x ↦
            rw (d, a, x) (Inv-record_outcome keys now (perform_delivery env r w) inv (e, d, x))
      ]
    ]
  ]

abbrev pub untried : List Resource → World
untried rows = record { rows = rows; tried = [] }

module _ (env : Environment) where
  Inv-deliver_resource :
      (keys : ℕ → Option Key) (now i : ℕ) (w : World)
      → Inv env keys w
      → Inv env keys (deliver_resource env now i w).1
  unfolding deliver_resource load_resource
  Inv-deliver_resource keys now i w inv = go (row i w) refl
    where
      go : (o : Option Resource) → row i w ≡ o → Inv env keys (deliver_resource env now i w).1
      go none e = rw (e, deliver_resource) inv
      go (some r) e =
          let same : r.id ≡ i = ground (arith, first?-passes (has_id i) w.rows r e) in
          rw (e, deliver_resource)
            (Inv-deliver_locked env r w keys now (ap (λ n. row n w) same ∙ e) inv)

  -- Deliveries of the rows of ids, each with the time at which it is made.
  abbrev pub deliver_each : List (ℕ × ℕ) → World → World
  deliver_each [] w = w
  deliver_each ((now, i) ∷ calls) w = deliver_each calls (deliver_resource env now i w).1

  Inv-deliver_each :
      (keys : ℕ → Option Key) (calls : List (ℕ × ℕ)) (w : World)
      → Inv env keys w
      → Inv env keys (deliver_each calls w)
  Inv-deliver_each keys [] w inv = inv
  Inv-deliver_each keys ((now, i) ∷ calls) w inv =
      Inv-deliver_each keys calls (deliver_resource env now i w).1
        (Inv-deliver_resource keys now i w inv)

  -- From a table of which nothing was tried yet, deliveries one after the other, of any rows in any
  -- order, never have two successful attempts on rows with the same dedupe key.
  pub deliver_each-Once :
      (calls : List (ℕ × ℕ)) (rows : List Resource)
      → Once env (λ i. key_of env i (untried rows)) (deliver_each calls (untried rows)).tried
  deliver_each-Once calls rows =
      let inv =
        Inv-deliver_each (λ i. key_of env i (untried rows)) calls (untried rows)
          (record { agrees = λ i. refl; once = tt; done = tt }) in
      inv.once
