-- ===== src/ChineseNumbers/Examples.antt =====
-- Chinese numbers: tests and a worked instance.
use togo.Common.{String, ◌≡◌, refl, none, some, arith, get}
use togo.ChineseNumbers.{chinese_number_to_int}
use togo.ChineseNumbers.Texts.{replaced, partition, plain_digits}
use togo.ChineseNumbers.RoundTrip.{written, chinese_number_to_int-written}

abbrev strip : String → String
strip s = s

test_year : chinese_number_to_int strip "二〇二四" ≡ some 2024
unfolding chinese_number_to_int replaced partition plain_digits get
test_year = refl

test_hundreds_are_not_read : chinese_number_to_int strip "一百二十" ≡ none
unfolding chinese_number_to_int replaced partition plain_digits get
test_hundreds_are_not_read = refl

-- What follows the ten and is no digit counts as nothing.
test_tail_is_dropped : chinese_number_to_int strip "二十一二" ≡ some 20
unfolding chinese_number_to_int replaced partition plain_digits get
test_tail_is_dropped = refl

chinese_number_to_int-written_example : chinese_number_to_int strip (written 42) ≡ some 42
chinese_number_to_int-written_example =
    chinese_number_to_int-written strip 42 (omega arith) (omega arith) refl
