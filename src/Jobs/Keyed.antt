-- ===== src/Jobs/Keyed.antt =====
-- Rows that are found by their id, in a table whose ids rise.
use mathlib.Core.Option
use togo.Common.{
  ℕ, ◌≤◌, ◌≡◌, refl, Bool, ◌&&◌, List, [], ◌∷◌, arith, if◌then◌else◌, inl, inr, Bool-cases, first?,
  select, update_where, count_where, Ascending,
}
use togo.Jobs.{Job, has_id}

abbrev pub Rising : ℕ → List Job → ℕ → Type 0
Rising = Ascending (λ j. j.id)

module _ (g : Job → Bool) (f : Job → Job) (i : ℕ) where
  -- No row past the id is written.
  pub update_past :
      (js : List Job) (lo hi : ℕ)
      → i ≤ lo
      → Rising lo js hi
      → update_where (λ j. has_id i j && g j) f js ≡ js
  update_past [] lo hi le h = refl
  update_past (j ∷ js) lo hi le h = ground (arith, update_past js j.id hi)

  pub count_past :
      (js : List Job) (lo hi : ℕ)
      → i ≤ lo
      → Rising lo js hi
      → count_where (λ j. has_id i j && g j) js ≡ 0
  count_past [] lo hi le h = refl
  count_past (j ∷ js) lo hi le h = ground (arith, count_past js j.id hi)

Rising-lower : (js : List Job) (lo' lo hi : ℕ) → lo' ≤ lo → Rising lo js hi → Rising lo' js hi
Rising-lower [] lo' lo hi le h = omega arith
Rising-lower (j ∷ js) lo' lo hi le h = (omega arith, h.1)

-- A SELECT keeps the order.
pub Rising-select :
    (p : Job → Bool) (js : List Job) (lo hi : ℕ) → Rising lo js hi → Rising lo (select p js) hi
Rising-select p [] lo hi h = h
Rising-select p (j ∷ js) lo hi h =
    let rest = Rising-select p js j.id hi h.1 in
    elim (Bool-cases (p j)) [
      | inl e ↦ rw e (h.0, rest)
      | inr e ↦ rw e (Rising-lower (select p js) lo j.id hi (omega arith) rest)
    ]

pub first?-update_where :
    (i : ℕ) (p : Job → Bool) (f : Job → Job) (js : List Job)
    → ((j : Job) → (f j).id ≡ j.id)
    → first? (has_id i) (update_where p f js)
      ≡ Option.map (λ j. if p j then f j else j) (first? (has_id i) js)
first?-update_where i p f [] same = refl
first?-update_where i p f (j ∷ js) same = ground (arith, same j, first?-update_where i p f js same)
