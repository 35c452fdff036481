-- ===== src/Common/Assoc.antt =====
-- Python's dictionaries with text keys: pairs in the order of insertion. Setting a key that is
-- there keeps its place; `pop` of a key that is not there changes nothing.
use Prim.Native.Nat.{ℕ, ◌+◌, ◌-◌, ◌≤◌}
use Prim.Native.String.{String}
use mathlib.Core.Path.{◌≡◌, refl, ◌∙◌, ap, subst}
use mathlib.Core.Bool.{true}
use mathlib.Core.Logic.{inl, inr}
use mathlib.Core.Option.{Option, none, some}
use mathlib.Core.List.{List, [], ◌∷◌, ◌++◌, map}
use native.Mathlib.Omega.{arith}
use text.Mathlib.Text.{◌==◌ as str_eq}
use text.Mathlib.TextEquality.{eq_iff}
use togo.Common.Tests.{if◌then◌else◌, Bool-cases}
use togo.Common.Lists.{length, length-drop, any, take, drop, take-append-drop}

abbrev pub Dict {ℓ} : Type ℓ → Type ℓ
Dict V = List (String × V)

pub text_refl : (k : String) → str_eq k k ≡ true
text_refl k = (eq_iff k k).1 refl

module _ {ℓ} {V : Type ℓ} where
  unfoldable pub get : String → Dict V → Option V
  get k [] = none
  get k ((j, v) ∷ d) = if str_eq j k then some v else get k d

  unfoldable pub pop : String → Dict V → Dict V
  pop k [] = []
  pop k ((j, v) ∷ d) = let rest = pop k d in if str_eq j k then rest else (j, v) ∷ rest

  unfoldable pub put : String → V → Dict V → Dict V
  put k v [] = (k, v) ∷ []
  put k v ((j, w) ∷ d) = if str_eq j k then (k, v) ∷ d else (j, w) ∷ put k v d

  abbrev pub keys : Dict V → List String
  keys = map (λ e. e.0)

  -- `for key in ks: d.pop(key, None)`
  unfoldable pub pop_all : List String → Dict V → Dict V
  pop_all [] d = d
  pop_all (k ∷ ks) d = pop_all ks (pop k d)

  pub get-put :
      (k j : String) (v : V) (d : Dict V)
      → get j (put k v d) ≡ (if str_eq k j then some v else get j d)
  unfolding get put
  get-put k j v [] = refl
  get-put k j v ((i, w) ∷ d) = ground (arith, eq_iff k j, eq_iff i k, eq_iff i j, get-put k j v d)

  pub get-pop :
      (k j : String) (d : Dict V) → get j (pop k d) ≡ (if str_eq k j then none else get j d)
  unfolding get pop
  get-pop k j [] = ground arith
  get-pop k j ((i, w) ∷ d) = ground (arith, eq_iff k j, eq_iff i k, eq_iff i j, get-pop k j d)

  pub length-put-le : (k : String) (v : V) (d : Dict V) → length (put k v d) ≤ length d + 1
  unfolding put
  length-put-le k v [] = omega arith
  length-put-le k v ((j, w) ∷ d) = ground (arith, length-put-le k v d)

  pub length-pop-le : (k : String) (d : Dict V) → length (pop k d) ≤ length d
  unfolding pop
  length-pop-le k [] = omega arith
  length-pop-le k ((j, w) ∷ d) = ground (arith, length-pop-le k d)

  pop-append : (k : String) (c d : Dict V) → pop k (c ++ d) ≡ pop k c ++ pop k d
  unfolding pop
  pop-append k [] d = refl
  pop-append k ((j, w) ∷ c) d = ground (arith, pop-append k c d)

  pop_comm : (k j : String) (d : Dict V) → pop k (pop j d) ≡ pop j (pop k d)
  unfolding pop
  pop_comm k j [] = refl
  pop_comm k j ((i, w) ∷ d) = ground (arith, pop_comm k j d)

  pub length-pop_all-le : (ks : List String) (d : Dict V) → length (pop_all ks d) ≤ length d
  unfolding pop_all
  length-pop_all-le [] d = omega arith
  length-pop_all-le (k ∷ ks) d = omega (arith, length-pop_all-le ks (pop k d), length-pop-le k d)

  pop_all-append :
      (ks : List String) (c d : Dict V) → pop_all ks (c ++ d) ≡ pop_all ks c ++ pop_all ks d
  unfolding pop_all
  pop_all-append [] c d = refl
  pop_all-append (k ∷ ks) c d = rw pop-append (pop_all-append ks (pop k c) (pop k d))

  pop_all-pop :
      (ks : List String) (k : String) (d : Dict V) → pop_all ks (pop k d) ≡ pop k (pop_all ks d)
  unfolding pop_all
  pop_all-pop [] k d = refl
  pop_all-pop (j ∷ ks) k d = rw (pop_comm j k d) (pop_all-pop ks k (pop j d))

  pop_all-keys : (d : Dict V) → pop_all (keys d) d ≡ []
  unfolding pop_all pop
  pop_all-keys [] = refl
  pop_all-keys ((k, v) ∷ d) =
      ap (pop_all (keys d)) pop_head ∙ (pop_all-pop (keys d) k d ∙ ap (pop k) (pop_all-keys d))
    where
      pop_head : pop k ((k, v) ∷ d) ≡ pop k d
      pop_head = rw (pop, text_refl k)

  length-kept : (c d e : Dict V) → c ++ d ≡ e → length (pop_all (keys c) e) ≤ length d
  length-kept c d e h = rw (← h) (rw (pop_all-append, pop_all-keys) (length-pop_all-le (keys c) d))

  -- Dropping the first `n` keys leaves at most the pairs after them.
  pub length-pop_all-take :
      (n : ℕ) (d : Dict V) → length (pop_all (keys (take n d)) d) ≤ length d - n
  length-pop_all-take n d =
      rw (length-drop n d) at (length-kept (take n d) (drop n d) d (take-append-drop n d))

module _ {ℓ} {V : Type ℓ} where
  pub get-pop_all :
      (ks : List String) (j : String) (d : Dict V)
      → get j (pop_all ks d) ≡ (if any (str_eq j) ks then none else get j d)
  unfolding pop_all
  get-pop_all [] j d = refl
  get-pop_all (k ∷ ks) j d =
      rw (get-pop_all ks j (pop k d), get-pop k j d) (ground (arith, eq_iff k j, eq_iff j k))

  -- No key stands in two pairs.
  unfoldable pub Unique : Dict V → Type ℓ
  Unique [] = Unit
  Unique ((k, v) ∷ d) = (get k d ≡ none) × Unique d

  pub put-Unique : (k : String) (v : V) (d : Dict V) → Unique d → Unique (put k v d)
  unfolding put get Unique
  put-Unique k v [] u = (refl, tt)
  put-Unique k v ((j, w) ∷ d) u = elim (Bool-cases (str_eq j k)) [
    | inl e ↦ rw (e, put) (subst (λ i. get i d ≡ none) ((eq_iff j k).0 e) u.0, u.1)
    | inr e ↦
        rw (e, put)
          (get-put k j v d ∙ ground (arith, eq_iff k j, eq_iff j k, u.0), put-Unique k v d u.1)
  ]

  pub pop-Unique : (k : String) (d : Dict V) → Unique d → Unique (pop k d)
  unfolding pop Unique
  pop-Unique k [] u = tt
  pop-Unique k ((j, w) ∷ d) u = elim (Bool-cases (str_eq j k)) [
    | inl e ↦ rw (e, pop) (pop-Unique k d u.1)
    | inr e ↦ rw (e, pop) (get-pop k j d ∙ ground (arith, u.0), pop-Unique k d u.1)
  ]

  pub pop_all-Unique : (ks : List String) (d : Dict V) → Unique d → Unique (pop_all ks d)
  unfolding pop_all
  pop_all-Unique [] d u = u
  pop_all-Unique (k ∷ ks) d u = pop_all-Unique ks (pop k d) (pop-Unique k d u)
