-- ===== src/Common/Sets.antt =====
-- Python's sets as lists that hold each member once. Their order means nothing: what is proved of
-- them goes by `has`, and by `length` where no member stands twice.
use Prim.Native.Nat.{ℕ}
use mathlib.Core.Path.{◌≡◌, refl, sym, ◌∙◌, ap}
use mathlib.Core.Logic.{◌↔◌, inl, inr}
use mathlib.Core.Bool.{Bool, true, false, not, ◌&&◌, ◌||◌}
use mathlib.Core.List.{List, [], ◌∷◌, ◌++◌}
use native.Mathlib.Omega.{arith}
use togo.Common.Tests.{if◌then◌else◌, Bool-cases, ◌==◌, ==_iff}
use togo.Common.Lists.{select, all}

-- A type whose values can be compared.
pub record Equal {ℓ} (A : Type ℓ) : Type ℓ where
  pub same : A → A → Bool
  pub same_iff : (a b : A) → (same a b ≡ true) ↔ (a ≡ b)

instance abbrev pub ℕ_equal : Equal ℕ
ℕ_equal = record { same = λ a b. a == b; same_iff = ==_iff }

abbrev pub same_pair : ℕ × ℕ → ℕ × ℕ → Bool
same_pair (a, b) (c, d) = a == c && b == d

pub same_pair_iff : (p q : ℕ × ℕ) → (same_pair p q ≡ true) ↔ (p ≡ q)
same_pair_iff (a, b) (c, d) = ground arith

instance abbrev pub pair_equal : Equal (ℕ × ℕ)
pair_equal = record { same = same_pair; same_iff = same_pair_iff }

module _ {ℓ} {A : Type ℓ} ⦃e : Equal A⦄ where
  abbrev pub has : A → List A → Bool
  has k [] = false
  has k (x ∷ xs) = e.same x k || has k xs

  abbrev pub diff : List A → List A → List A
  diff s t = select (λ k. not (has k t)) s

  abbrev pub inter : List A → List A → List A
  inter s t = select (λ k. has k t) s

  abbrev pub union : List A → List A → List A
  union s t = s ++ diff t s

  abbrev pub subset : List A → List A → Bool
  subset s t = all (λ k. has k t) s

  -- `s.add(k)`
  abbrev pub add : A → List A → List A
  add k s = if has k s then s else k ∷ s

  -- The set of the members of a list.
  abbrev pub set_of : List A → List A
  set_of [] = []
  set_of (x ∷ xs) = add x (set_of xs)

  pub same_refl : (k : A) → e.same k k ≡ true
  same_refl k = (e.same_iff k k).1 refl

  pub has-select : (k : A) (p : A → Bool) (s : List A) → has k (select p s) ≡ (has k s && p k)
  has-select k p [] = refl
  has-select k p (x ∷ s) = elim (Bool-cases (e.same x k)) [
    | inl here ↦ ground (arith, ap p ((e.same_iff x k).0 here), has-select k p s)
    | inr there ↦ ground (arith, has-select k p s)
  ]

  pub has-append : (k : A) (s t : List A) → has k (s ++ t) ≡ (has k s || has k t)
  has-append k [] t = refl
  has-append k (x ∷ s) t = ground (arith, has-append k s t)

  pub has-union : (k : A) (s t : List A) → has k (union s t) ≡ (has k s || has k t)
  has-union k s t =
      rw (has-append k s (diff t s), has-select k (λ j. not (has j s)) t) (ground arith)

  pub has-set_of : (k : A) (s : List A) → has k (set_of s) ≡ has k s
  has-set_of k [] = refl
  has-set_of k (x ∷ s) = elim (Bool-cases (has x (set_of s))) [
    | inr new ↦ rw new (ap (λ b. e.same x k || b) (has-set_of k s))
    | inl old ↦ elim (Bool-cases (e.same x k)) [
      | inl here ↦ rw (old, here) (ap (λ j. has j (set_of s)) (sym ((e.same_iff x k).0 here)) ∙ old)
      | inr there ↦ rw (old, there) (has-set_of k s)
    ]
  ]

  pub subset-has : (k : A) (s t : List A) → subset s t ≡ true → has k s ≡ true → has k t ≡ true
  subset-has k [] t h m = cc
  subset-has k (x ∷ s) t h m = elim (Bool-cases (e.same x k)) [
    | inl here ↦ ground (arith, ap (λ j. has j t) ((e.same_iff x k).0 here))
    | inr there ↦ ground (arith, subset-has k s t)
  ]

  pub has-subset : (s t : List A) → ((k : A) → has k s ≡ true → has k t ≡ true) → subset s t ≡ true
  has-subset [] t h = refl
  has-subset (x ∷ s) t h =
      ground (arith, h x (rw (same_refl x) refl), has-subset s t (λ k m. h k (ground arith)))

  pub has-add : (k j : A) (s : List A) → has k (add j s) ≡ (e.same j k || has k s)
  has-add k j s = elim (Bool-cases (has j s)) [
    | inr new ↦ rw new refl
    | inl old ↦ elim (Bool-cases (e.same j k)) [
      | inl here ↦ rw (old, here) (ap (λ i. has i s) (sym ((e.same_iff j k).0 here)) ∙ old)
      | inr there ↦ rw (old, there) refl
    ]
  ]

  pub has-inter : (k : A) (s t : List A) → has k (inter s t) ≡ (has k s && has k t)
  has-inter k s t = has-select k (λ j. has j t) s

  pub subset_refl : (s : List A) → subset s s ≡ true
  subset_refl s = has-subset s s (λ k m. m)

  pub subset-inter : (s t : List A) → subset (inter s t) t ≡ true
  subset-inter s t = has-subset (inter s t) t (λ k m. ground (arith, has-inter k s t, m))
