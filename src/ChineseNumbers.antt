-- ===== src/ChineseNumbers.antt =====
-- app/services/subscription/episode/chinese_numbers.py: the numbers that are written in Chinese in
-- the titles of episodes. Parameter: Python's `str.strip`.
pub mod Texts
pub mod RoundTrip
mod Examples
use togo.Common.{
  ℕ, zero, suc, ◌+◌, ◌*◌, ◌/◌, ◌%◌, String, Bool, true, false, Option, none, some, List, [], ◌∷◌,
  if◌then◌else◌, ◌==◌, or_else, chars, Dict, get, str_eq,
}
use togo.ChineseNumbers.Texts.{replaced, partition, plain_digits}

-- `CHINESE_DIGITS`
abbrev pub digits : Dict ℕ
digits =
    ("零", 0)
    ∷ ("〇", 0)
    ∷ ("一", 1)
    ∷ ("二", 2)
    ∷ ("两", 2)
    ∷ ("三", 3)
    ∷ ("四", 4)
    ∷ ("五", 5)
    ∷ ("六", 6)
    ∷ ("七", 7)
    ∷ ("八", 8)
    ∷ ("九", 9)
    ∷ ("壹", 1)
    ∷ ("贰", 2)
    ∷ ("貳", 2)
    ∷ ("叁", 3)
    ∷ ("肆", 4)
    ∷ ("伍", 5)
    ∷ ("陆", 6)
    ∷ ("陸", 6)
    ∷ ("柒", 7)
    ∷ ("捌", 8)
    ∷ ("玖", 9)
    ∷ []

-- `tens * 10 + ones if tens else None`
abbrev pub around_ten : String → String → Option ℕ
around_ten left right =
    let tens = or_else (get left digits) (if str_eq left "" then 1 else 0) in
    let ones = if str_eq right "" then 0 else or_else (get right digits) 0 in
    if tens == 0 then none else some (tens * 10 + ones)

-- `number or None`
abbrev pub nonzero : Option ℕ → Option ℕ
nonzero none = none
nonzero (some zero) = none
nonzero (some (suc n)) = some (suc n)

abbrev pub without_ten : String → Option ℕ
without_ten text = if chars text == 1 then get text digits else nonzero (plain_digits digits 0 text)

abbrev pub parted : String → Option (String × String) → Option ℕ
parted text none = without_ten text
parted text (some (left, right)) = around_ten left right

unfoldable pub chinese_number_to_int : (String → String) → String → Option ℕ
chinese_number_to_int strip text =
    let normalized = replaced (strip text) in
    if str_eq normalized "十" then some 10 else parted normalized (partition normalized)
