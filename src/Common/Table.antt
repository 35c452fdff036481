-- ===== src/Common/Table.antt =====
-- Tables as lists of rows in the order of their keys: SELECT, UPDATE and COUNT with a WHERE clause.
use Prim.Native.Nat.{ℕ, suc, ◌+◌, ◌≤◌, ◌<◌}
use mathlib.Core.Path.{◌≡◌, refl, ap}
use mathlib.Core.Logic.{inl, inr}
use mathlib.Core.Bool.{Bool, true, false}
use mathlib.Core.Option
use mathlib.Core.Option.{Option, some}
use mathlib.Core.List.{List, [], ◌∷◌, ◌++◌, reverse, reverse-cons}
use native.Mathlib.Omega.{arith}
use togo.Common.Tests.{if◌then◌else◌, is_some, Bool-cases}
use togo.Common.Lists.{length, All, select, first?}

module _ {ℓ} {A : Type ℓ} where
  -- UPDATE … SET f WHERE p.
  abbrev pub update_where : (A → Bool) → (A → A) → List A → List A
  update_where p f [] = []
  update_where p f (x ∷ xs) = (if p x then f x else x) ∷ update_where p f xs

  -- SELECT COUNT(*) … WHERE p, which is also the row count of the UPDATE.
  abbrev pub count_where : (A → Bool) → List A → ℕ
  count_where p [] = 0
  count_where p (x ∷ xs) = (if p x then 1 else 0) + count_where p xs

  -- The keys of the rows rise, above `lo` and up to `hi`.
  abbrev pub Ascending : (A → ℕ) → ℕ → List A → ℕ → Type 0
  Ascending key lo [] hi = lo ≤ hi
  Ascending key lo (x ∷ xs) hi = (lo < key x) × Ascending key (key x) xs hi

module _ {ℓ} {A : Type ℓ} (key : A → ℕ) where
  pub Ascending-le : (xs : List A) (lo hi : ℕ) → Ascending key lo xs hi → lo ≤ hi
  Ascending-le [] lo hi h = h
  Ascending-le (x ∷ xs) lo hi h = omega (arith, Ascending-le xs (key x) hi h.1)

  -- A new last row, with a key past every other.
  pub Ascending-append :
      (xs : List A) (x : A) (lo hi : ℕ)
      → hi < key x
      → Ascending key lo xs hi
      → Ascending key lo (xs ++ x ∷ []) (key x)
  Ascending-append [] x lo hi new h = (omega arith, omega arith)
  Ascending-append (y ∷ ys) x lo hi new h = (h.0, Ascending-append ys x (key y) hi new h.1)

  -- An UPDATE that writes no key keeps the order.
  pub Ascending-update_where :
      (p : A → Bool) (f : A → A) (xs : List A) (lo hi : ℕ)
      → ((a : A) → key (f a) ≡ key a)
      → Ascending key lo xs hi
      → Ascending key lo (update_where p f xs) hi
  Ascending-update_where p f [] lo hi same h = h
  Ascending-update_where p f (x ∷ xs) lo hi same h =
      let rest = Ascending-update_where p f xs (key x) hi same h.1 in
      elim (Bool-cases (p x)) [ inl e ↦ rw (e, same x) (h.0, rest) | inr e ↦ rw e (h.0, rest) ]

module _ {ℓ} {A : Type ℓ} where
  pub length-update_where :
      (p : A → Bool) (f : A → A) (xs : List A) → length (update_where p f xs) ≡ length xs
  length-update_where p f [] = refl
  length-update_where p f (x ∷ xs) = ap suc (length-update_where p f xs)

  -- An UPDATE whose WHERE no row meets changes nothing.
  pub update_where_none :
      (p : A → Bool) (f : A → A) (xs : List A) → count_where p xs ≡ 0 → update_where p f xs ≡ xs
  update_where_none p f [] h = refl
  update_where_none p f (x ∷ xs) h = ground (arith, update_where_none p f xs)

  pub count_where-append :
      (p : A → Bool) (xs ys : List A)
      → count_where p (xs ++ ys) ≡ count_where p xs + count_where p ys
  count_where-append p [] ys = omega arith
  count_where-append p (x ∷ xs) ys = omega (arith, count_where-append p xs ys)

  pub count_where-le : (p : A → Bool) (xs : List A) → count_where p xs ≤ length xs
  count_where-le p [] = omega arith
  count_where-le p (x ∷ xs) = ground (arith, count_where-le p xs)

  pub All-update_where {κ} :
      (P : A → Type κ) (p : A → Bool) (f : A → A) (xs : List A)
      → ((a : A) → p a ≡ true → P a → P (f a))
      → All P xs
      → All P (update_where p f xs)
  All-update_where P p f [] keep h = tt
  All-update_where P p f (x ∷ xs) keep h =
      let rest = All-update_where P p f xs keep h.1 in
      elim (Bool-cases (p x)) [ inl e ↦ rw e (keep x e h.0, rest) | inr e ↦ rw e (h.0, rest) ]

  pub count_where-reverse :
      (p : A → Bool) (xs : List A) → count_where p (reverse xs) ≡ count_where p xs
  count_where-reverse p [] = refl
  count_where-reverse p (x ∷ xs) =
      rw (reverse-cons, count_where-append) (omega (arith, count_where-reverse p xs))

  pub length-select : (p : A → Bool) (xs : List A) → length (select p xs) ≡ count_where p xs
  length-select p [] = refl
  length-select p (x ∷ xs) = ground (arith, length-select p xs)

  -- A row that is found by what the UPDATE does not write.
  pub first?-update_where :
      (q p : A → Bool) (f : A → A) (xs : List A)
      → ((a : A) → q (f a) ≡ q a)
      → first? q (update_where p f xs) ≡ Option.map (λ a. if p a then f a else a) (first? q xs)
  first?-update_where q p f [] same = refl
  first?-update_where q p f (x ∷ xs) same =
      ground (arith, same x, first?-update_where q p f xs same)

  pub first?-is_some :
      (p : A → Bool) (xs : List A) (q : A → Bool) (a : A)
      → first? q xs ≡ some a
      → p a ≡ true
      → is_some (first? p xs) ≡ true
  first?-is_some p [] q a e h = cc
  first?-is_some p (x ∷ xs) q a e h = ground (arith, first?-is_some p xs q a)

  -- An UPDATE of rows that a search passes over, before and after.
  pub first?-update_where-skips :
      (q p : A → Bool) (f : A → A) (xs : List A)
      → ((a : A) → p a ≡ true → q a ≡ false)
      → ((a : A) → p a ≡ true → q (f a) ≡ false)
      → first? q (update_where p f xs) ≡ first? q xs
  first?-update_where-skips q p f [] before after = refl
  first?-update_where-skips q p f (x ∷ xs) before after =
      let rest = first?-update_where-skips q p f xs before after in
      elim (Bool-cases (p x)) [
        | inl e ↦ rw (e, before x e, after x e) rest
        | inr e ↦ rw (e, rest) refl
      ]
