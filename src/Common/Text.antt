-- ===== src/Common/Text.antt =====
-- Texts: Python's slice `s[:n]` and `a or b`.
use Prim.Native.Nat.{ℕ, zero, suc, ◌≤◌}
use Prim.Native.String.{String, [], ◌∷◌}
use native.Mathlib.Omega.{arith}
use text.Mathlib.Text.{◌==◌ as str_eq}
use togo.Common.Tests.{if◌then◌else◌}

-- `s[:n]`: the first `n` characters.
unfoldable pub truncate : ℕ → String → String
truncate zero s = []
truncate (suc n) [] = []
truncate (suc n) (c ∷ s) = c ∷ truncate n s

abbrev pub or_text : String → String → String
or_text a b = if str_eq a "" then b else a

abbrev pub chars : String → ℕ
chars [] = 0
chars (c ∷ s) = suc (chars s)

pub chars-truncate : (n : ℕ) (s : String) → chars (truncate n s) ≤ n
unfolding truncate
chars-truncate zero s = omega arith
chars-truncate (suc n) [] = omega arith
chars-truncate (suc n) (c ∷ s) = omega (arith, chars-truncate n s)
