-- ===== src/Queue/Number/Format.antt =====
-- `fmt_no`: the six digits of a ticket.
use linebot.Prelude.{
  ℕ, zero, suc, ◌-◌, ◌<◌, ◌≡◌, refl, ◌∙◌, true, ◌++◌, Text, arith, length, length-append, decimal,
  digits_value, all_digits,
}
use linebot.Prelude.Codes.Digits.{digits_value-decimal, all_digits-decimal, length-decimal}
use linebot.Queue.Number.{zeros, fmt_no}

length-zeros : (k : ℕ) → length (zeros k) ≡ k
length-zeros zero = refl
length-zeros (suc k) = omega (arith, length-zeros k)

digits_value-zeros : (k : ℕ) (s : Text) → digits_value 0 (zeros k ++ s) ≡ digits_value 0 s
digits_value-zeros zero s = refl
digits_value-zeros (suc k) s = digits_value-zeros k s

all_digits-zeros : (k : ℕ) (s : Text) → all_digits s ≡ true → all_digits (zeros k ++ s) ≡ true
all_digits-zeros zero s h = h
all_digits-zeros (suc k) s h = all_digits-zeros k s h

-- A ticket number of at most six digits prints as six digits, and the digits read back as the number.
pub fmt_no_round_trip :
    (n : ℕ)
    → n < 1000000
    → (length (fmt_no n) ≡ 6) × (all_digits (fmt_no n) ≡ true) × (digits_value 0 (fmt_no n) ≡ n)
unfolding fmt_no
fmt_no_round_trip n h = (
  length-append (zeros (6 - length (decimal n))) (decimal n)
      ∙ omega (arith, length-zeros (6 - length (decimal n)), length-decimal n 5 h),
  all_digits-zeros (6 - length (decimal n)) (decimal n) (all_digits-decimal n),
  digits_value-zeros (6 - length (decimal n)) (decimal n) ∙ digits_value-decimal n,
)
