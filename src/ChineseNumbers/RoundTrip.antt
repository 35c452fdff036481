-- ===== src/ChineseNumbers/RoundTrip.antt =====
-- The numbers from 1 to 99 in the usual writing are read back.
use Prim.Native.String.{◌++◌}
use togo.Common.{
  ℕ, zero, suc, ◌+◌, ◌/◌, ◌%◌, ◌≤◌, ◌<◌, String, ◌≡◌, refl, Bool, true, false, ◌&&◌, Option, none,
  some, List, [], ◌∷◌, arith, if◌then◌else◌, ◌==◌, inl, inr, ap, subst, sym, ◌∙◌, leb, Bool-cases,
  get,
}
use togo.ChineseNumbers.{chinese_number_to_int}
use togo.ChineseNumbers.Texts.{replaced, partition, plain_digits}

abbrev digit_of : ℕ → List String → String
digit_of zero (d ∷ ds) = d
digit_of (suc n) (d ∷ ds) = digit_of n ds
digit_of n [] = ""

-- The usual writing: 一 to 九, 十 to 十九, 二十 to 九十九.
abbrev pub written : ℕ → String
written n =
    let names = "" ∷ "一" ∷ "二" ∷ "三" ∷ "四" ∷ "五" ∷ "六" ∷ "七" ∷ "八" ∷ "九" ∷ [] in
    let tens = n / 10 in
    (if tens == 0 then "" else (if tens == 1 then "" else digit_of tens names) ++ "十")
    ++ digit_of (n % 10) names

abbrev reads : ℕ → Option ℕ → Bool
reads n none = false
reads n (some m) = n == m

abbrev reads_all : ℕ → ℕ → Bool
reads_all lo zero = true
reads_all lo (suc n) =
    reads lo (chinese_number_to_int (λ s. s) (written lo)) && reads_all (lo + 1) n

first_read : reads_all 1 25 ≡ true
unfolding chinese_number_to_int replaced partition plain_digits get
first_read = refl

second_read : reads_all 26 25 ≡ true
unfolding chinese_number_to_int replaced partition plain_digits get
second_read = refl

third_read : reads_all 51 25 ≡ true
unfolding chinese_number_to_int replaced partition plain_digits get
third_read = refl

fourth_read : reads_all 76 24 ≡ true
unfolding chinese_number_to_int replaced partition plain_digits get
fourth_read = refl

and-left : (a b : Bool) → (a && b) ≡ true → a ≡ true
and-left a b h = ground arith

and-right : (a b : Bool) → (a && b) ≡ true → b ≡ true
and-right a b h = ground arith

==→eq : (a b : ℕ) → (a == b) ≡ true → a ≡ b
==→eq a b h = ground arith

reads-reads_all :
    (n lo k : ℕ)
    → reads_all lo n ≡ true
    → lo ≤ k
    → k < lo + n
    → reads k (chinese_number_to_int (λ s. s) (written k)) ≡ true
reads-reads_all zero lo k h a b = ground arith
reads-reads_all (suc n) lo k h a b = elim (Bool-cases (k == lo)) [
  | inl e ↦
      subst (λ j. reads j (chinese_number_to_int (λ s. s) (written j)) ≡ true) (sym (==→eq k lo e))
        (and-left _ _ h)
  | inr e ↦ reads-reads_all n (lo + 1) k (and-right _ _ h) (ground arith) (omega arith)
]

reads→eq : (n : ℕ) (o : Option ℕ) → reads n o ≡ true → o ≡ some n
reads→eq n none h = cc
reads→eq n (some m) h = ap some (ground arith)

stripped :
    (strip : String → String) (text : String)
    → strip text ≡ text
    → chinese_number_to_int strip text ≡ chinese_number_to_int (λ s. s) text
unfolding chinese_number_to_int
stripped strip text same = rw same refl

read_back : (n : ℕ) → 1 ≤ n → n ≤ 99 → reads n (chinese_number_to_int (λ s. s) (written n)) ≡ true
read_back n low high = elim (Bool-cases (leb n 25)) [
  | inl a ↦ reads-reads_all 25 1 n first_read low (ground arith)
  | inr a ↦ elim (Bool-cases (leb n 50)) [
    | inl b ↦ reads-reads_all 25 26 n second_read (ground arith) (ground arith)
    | inr b ↦ elim (Bool-cases (leb n 75)) [
      | inl c ↦ reads-reads_all 25 51 n third_read (ground arith) (ground arith)
      | inr c ↦ reads-reads_all 24 76 n fourth_read (ground arith) (omega arith)
    ]
  ]
]

-- Each number from 1 to 99 in the usual writing is read as that number, by any `strip` that leaves
-- that text as it is.
pub chinese_number_to_int-written :
    (strip : String → String) (n : ℕ)
    → 1 ≤ n
    → n ≤ 99
    → strip (written n) ≡ written n
    → chinese_number_to_int strip (written n) ≡ some n
chinese_number_to_int-written strip n low high same =
    stripped strip (written n) same
    ∙ reads→eq n (chinese_number_to_int (λ s. s) (written n)) (read_back n low high)
