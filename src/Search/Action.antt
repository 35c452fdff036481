-- ===== src/Search/Action.antt =====
-- An action on the tables that may raise. The tables come back after a raise as well, since what
-- another transaction has committed stays; `none` stands for a raise.
use togo.Common.{Option, none, some}
use togo.Saving.Insert.{World}

abbrev pub Action : Type 0 → Type 0
Action A = World → Option A × World

abbrev pub pure : {A : Type 0} → A → Action A
pure a w = (some a, w)

-- The rest of an action, after what came before it.
abbrev pub bound : {A B : Type 0} → (A → Action B) → Option A × World → Option B × World
bound f (none, w) = (none, w)
bound f (some a, w) = f a w

infixl 5 ◌>>=◌ ◌>>◌
abbrev pub ◌>>=◌ : {A B : Type 0} → Action A → (A → Action B) → Action B
◌>>=◌ m f w = bound f (m w)

abbrev pub ◌>>◌ : {A B : Type 0} → Action A → Action B → Action B
m >> k = m >>= λ _. k

abbrev pub modify : (World → World) → Action (Unit {0})
modify f w = (some tt, f w)
