-- ===== src/Delivery/Service/Once.antt =====
-- No link is delivered twice by deliveries that run one after the other.
use togo.Common.{
  ℕ, ◌≡◌, refl, sym, ◌∙◌, ap, Bool, true, false, Option, none, some, List, [], ◌∷◌, arith, ◌==◌,
  inl, inr, is_some, first?, first?-passes, first?-is_some, Bool-cases, Option-cases,
}
use togo.Delivery.{Resource, has_id, is_delivered}
use togo.Delivery.Service.{
  Key, same_key, Environment, World, on_row, existing_effective_delivery, by_key, delivered_under,
}
use togo.Delivery.Service.Rows.{row, delivered_row, row-on_row}

module _ (env : Environment) where
  open env use {dedupe_key}

  -- The dedupe key of the row of an id.
  abbrev key_at : Option Resource → Option Key
  key_at none = none
  key_at (some r) = dedupe_key r.url

  abbrev pub key_of : ℕ → World → Option Key
  key_of i w = key_at (row i w)

  abbrev pub clash : Option Key → Option Key → Bool
  clash none k = false
  clash (some j) k = same_key j k

  -- Of what was tried, no two successes were of links with the same key.
  abbrev pub Fresh : (ℕ → Option Key) → ℕ → List (ℕ × Bool) → Type 0
  Fresh keys i [] = Unit
  Fresh keys i ((j, false) ∷ t) = Fresh keys i t
  Fresh keys i ((j, true) ∷ t) = (clash (keys i) (keys j) ≡ false) × Fresh keys i t

  abbrev pub Once : (ℕ → Option Key) → List (ℕ × Bool) → Type 0
  Once keys [] = Unit
  Once keys ((i, false) ∷ t) = Once keys t
  Once keys ((i, true) ∷ t) = Fresh keys i t × Once keys t

  -- The rows of the successes are delivered.
  abbrev pub Done : World → List (ℕ × Bool) → Type 0
  Done w [] = Unit
  Done w ((i, false) ∷ t) = Done w t
  Done w ((i, true) ∷ t) = (delivered_row (row i w) ≡ true) × Done w t

  pub record Inv (keys : ℕ → Option Key) (w : World) : Type 0 where
    pub agrees : (i : ℕ) → key_of i w ≡ keys i
    pub once : Once keys w.tried
    pub done : Done w w.tried

  pub Done-mono :
      (w w' : World) (t : List (ℕ × Bool))
      → ((i : ℕ) → delivered_row (row i w) ≡ true → delivered_row (row i w') ≡ true)
      → Done w t
      → Done w' t
  Done-mono w w' [] keep d = tt
  Done-mono w w' ((i, false) ∷ t) keep d = Done-mono w w' t keep d
  Done-mono w w' ((i, true) ∷ t) keep d = (keep i d.0, Done-mono w w' t keep d.1)

  -- An UPDATE that keeps ids and links, and delivered rows delivered.
  pub record IsMild (p : Resource → Bool) (f : Resource → Resource) (w : World) : Type 0 where
    pub same_id : (r : Resource) → (f r).id ≡ r.id
    pub same_url : (r : Resource) → (f r).url ≡ r.url
    pub keeps :
        (i : ℕ) (r : Resource)
        → row i w ≡ some r
        → is_delivered r.status ≡ true
        → p r ≡ true
        → is_delivered (f r).status ≡ true

  module _ (p : Resource → Bool) (f : Resource → Resource) (w : World) (mild : IsMild p f w) where
    key_of-on_row : (i : ℕ) → key_of i (on_row p f w) ≡ key_of i w
    key_of-on_row i = go (row i w) refl
      where
        go : (o : Option Resource) → row i w ≡ o → key_of i (on_row p f w) ≡ key_of i w
        go none e = rw (row-on_row i p f w mild.same_id, e)
        go (some r) e = rw (row-on_row i p f w mild.same_id, e) (ground (arith, mild.same_url r))

    pub delivered-on_row :
        (i : ℕ) → delivered_row (row i w) ≡ true → delivered_row (row i (on_row p f w)) ≡ true
    delivered-on_row i h = go (row i w) refl
      where
        go : (o : Option Resource) → row i w ≡ o → delivered_row (row i (on_row p f w)) ≡ true
        go none e = cc (rw e at h)
        go (some r) e =
            rw (row-on_row i p f w mild.same_id, e) (ground (arith, mild.keeps i r e (rw e at h)))

    pub Inv-on_row : (keys : ℕ → Option Key) → Inv keys w → Inv keys (on_row p f w)
    Inv-on_row keys inv = record {
      agrees = λ i. key_of-on_row i ∙ inv.agrees i;
      once = inv.once;
      done = Done-mono w (on_row p f w) w.tried delivered-on_row inv.done;
    }

  -- A delivered row with the key of a row stands in the way of the row's delivery.
  key_is_new :
      (r s : Resource) (j : ℕ) (k : Key) (w : World)
      → is_some (existing_effective_delivery env r w) ≡ false
      → dedupe_key r.url ≡ some k
      → row j w ≡ some s
      → is_delivered s.status ≡ true
      → (j == r.id) ≡ false
      → same_key k (dedupe_key s.url) ≡ false
  unfolding existing_effective_delivery
  key_is_new r s j k w free ek es d other = elim (Bool-cases (same_key k (dedupe_key s.url))) [
    | inr e ↦ e
    | inl e ↦
        let found =
          first?-is_some (delivered_under env r.id k) w.rows (has_id j) s es
            (ground (arith, first?-passes (has_id j) w.rows s es)) in
        let here : is_some (by_key env r.id k w.rows) ≡ false = rw ek at free in
        elim (Option-cases (first? (delivered_under env r.id k) w.rows)) [
          | inl n ↦ cc (rw n at found)
          | inr n ↦ ground (arith, rw n.1 at here)
        ]
  ]

  delivered_row→some :
      (o : Option Resource)
      → delivered_row o ≡ true
      → (s : Resource) × (o ≡ some s) × (is_delivered s.status ≡ true)
  delivered_row→some none h = cc
  delivered_row→some (some s) h = (s, refl, h)

  pub same_row :
      (i j : ℕ) (w : World) (r s : Resource)
      → row i w ≡ some r
      → row j w ≡ some s
      → i ≡ j
      → s.status ≡ r.status
  same_row i j w r s e f same =
      let both = sym f ∙ ap (λ n. row n w) (sym same) ∙ e in ground (arith, both)

  module _ (r : Resource) (w : World) where
    -- A row may be delivered when it is not delivered and no other delivered row has its key.
    unfoldable pub IsNew : Type 0
    IsNew =
        (row r.id w ≡ some r)
        × (is_delivered r.status ≡ false)
        × (is_some (existing_effective_delivery env r w) ≡ false)

    clash-delivered :
        (j : ℕ)
        → IsNew
        → delivered_row (row j w) ≡ true
        → clash (key_of r.id w) (key_of j w) ≡ false
    unfolding IsNew
    clash-delivered j new d =
        let s = delivered_row→some (row j w) d in
        elim (Option-cases (dedupe_key r.url)) [
          | inl e ↦ rw (new.0, e) refl
          | inr k ↦
              rw (new.0, k.1, s.1)
                (key_is_new r s.0 j k.0 w new.2 k.1 s.1 s.2 (elim (Bool-cases (j == r.id)) [
                  | inr e ↦ e
                  | inl e ↦ cc (new.1, s.2, same_row r.id j w r s.0 new.0 s.1 (ground (arith, e)))
                ]))
        ]

    pub Fresh-new :
        (t : List (ℕ × Bool)) (keys : ℕ → Option Key)
        → ((i : ℕ) → key_of i w ≡ keys i)
        → IsNew
        → Done w t
        → Fresh keys r.id t
    Fresh-new [] keys agrees new d = tt
    Fresh-new ((j, false) ∷ t) keys agrees new d = Fresh-new t keys agrees new d
    Fresh-new ((j, true) ∷ t) keys agrees new d = (
      rw (sym (agrees r.id), sym (agrees j)) (clash-delivered j new d.0),
      Fresh-new t keys agrees new d.1,
    )
