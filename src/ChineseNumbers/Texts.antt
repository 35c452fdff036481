-- ===== src/ChineseNumbers/Texts.antt =====
-- The text operations of the parser.
use Prim.Native.String.{String, [], ◌∷◌, ◌++◌}
use togo.Common.{ℕ, ◌+◌, ◌*◌, Option, none, some, if◌then◌else◌, str_eq, Dict, get}

-- `.replace("拾", "十")`
unfoldable pub replaced : String → String
replaced [] = ""
replaced (c ∷ s) = (if str_eq (c ∷ []) "拾" then "十" else c ∷ []) ++ replaced s

abbrev pub after_first : String → Option (String × String) → Option (String × String)
after_first c none = none
after_first c (some (left, right)) = some (c ++ left, right)

-- `.partition("十")`, or nothing when the text has no 十.
unfoldable pub partition : String → Option (String × String)
partition [] = none
partition (c ∷ s) =
    let rest = after_first (c ∷ []) (partition s) in
    if str_eq (c ∷ []) "十" then some ("", s) else rest

-- The loop of `_plain_chinese_digits_to_int`.
unfoldable pub plain_digits : Dict ℕ → ℕ → String → Option ℕ
plain_digits digits number [] = some number
plain_digits digits number (c ∷ s) = elim (get (c ∷ []) digits) [
  | none ↦ none
  | some d ↦ plain_digits digits (number * 10 + d) s
]
