-- ===== src/Prelude/Codes/Digits.antt =====
-- Printing a number and reading it back.
use Prim.Native.Nat.{ℕ, zero, suc, ◌+◌, ◌*◌, ◌/◌, ◌%◌, ◌≤◌, ◌<◌}
use mathlib.Core.Path.{◌≡◌, refl, ◌∙◌, ap}
use mathlib.Core.Bool.{true, false}
use mathlib.Core.Logic.{inl, inr}
use mathlib.Core.Option.{some}
use mathlib.Core.List.{[], ◌∷◌, ◌++◌, reverse, reverse-reverse, reverse-cons}
use native.Mathlib.Omega.{arith}
use linebot.Prelude.Tests.{ltb, Bool-cases}
use linebot.Prelude.Lists.{length}
use linebot.Prelude.Codes.{
  Text, is_space, strip, lstrip, is_empty, decimal_fuel, decimal, all_digits, isdigit, digits_value,
  to_int,
}

-- 10 ^ k
abbrev pub pow10 : ℕ → ℕ
pow10 zero = 1
pow10 (suc k) = 10 * pow10 k

digits_value-decimal_fuel :
    (f n : ℕ) (acc : Text) → n < f → digits_value 0 (decimal_fuel f n acc) ≡ digits_value n acc
unfolding decimal_fuel
digits_value-decimal_fuel zero n acc h = absurd (omega arith)
digits_value-decimal_fuel (suc f) n acc h = elim (Bool-cases (ltb n 10)) [
  | inl small ↦ rw small (ap (λ v. digits_value v acc) (ground arith))
  | inr large ↦ rw large (
      digits_value-decimal_fuel f (n / 10) ((b'0' + n % 10) ∷ acc) (ground arith)
      ∙ ap (λ v. digits_value v acc) (omega arith))
]

all_digits-decimal_fuel :
    (f n : ℕ) (acc : Text) → all_digits acc ≡ true → all_digits (decimal_fuel f n acc) ≡ true
unfolding decimal_fuel
all_digits-decimal_fuel zero n acc h = h
all_digits-decimal_fuel (suc f) n acc h =
    let more : all_digits ((b'0' + n % 10) ∷ acc) ≡ true = ground arith in
    elim (Bool-cases (ltb n 10)) [
      | inl small ↦ rw small more
      | inr large ↦ rw large (all_digits-decimal_fuel f (n / 10) ((b'0' + n % 10) ∷ acc) more)
    ]

length-decimal_fuel :
    (f n k : ℕ) (acc : Text)
    → n < f
    → n < pow10 (suc k)
    → length (decimal_fuel f n acc) ≤ suc k + length acc
unfolding decimal_fuel
length-decimal_fuel zero n k acc h b = absurd (omega arith)
length-decimal_fuel (suc f) n zero acc h b = ground arith
length-decimal_fuel (suc f) n (suc k) acc h b = elim (Bool-cases (ltb n 10)) [
  | inl small ↦ rw small (omega arith)
  | inr large ↦ rw large (
      omega (
        arith,
        length-decimal_fuel f (n / 10) k ((b'0' + n % 10) ∷ acc) (ground arith) (omega arith),
      ))
]

is_empty-decimal_fuel :
    (f n : ℕ) (c : ℕ) (acc : Text) → is_empty (decimal_fuel f n (c ∷ acc)) ≡ false
unfolding decimal_fuel
is_empty-decimal_fuel zero n c acc = refl
is_empty-decimal_fuel (suc f) n c acc = elim (Bool-cases (ltb n 10)) [
  | inl small ↦ rw small refl
  | inr large ↦ rw large (is_empty-decimal_fuel f (n / 10) (b'0' + n % 10) (c ∷ acc))
]

pub is_empty-decimal : (n : ℕ) → is_empty (decimal n) ≡ false
unfolding decimal
is_empty-decimal n = elim (Bool-cases (ltb n 10)) [
  | inl small ↦ rw small refl
  | inr large ↦ rw large (is_empty-decimal_fuel n (n / 10) (b'0' + n % 10) [])
]

pub digits_value-decimal : (n : ℕ) → digits_value 0 (decimal n) ≡ n
unfolding decimal
digits_value-decimal n = digits_value-decimal_fuel (suc n) n [] (omega arith)

pub all_digits-decimal : (n : ℕ) → all_digits (decimal n) ≡ true
unfolding decimal
all_digits-decimal n = all_digits-decimal_fuel (suc n) n [] refl

pub length-decimal : (n k : ℕ) → n < pow10 (suc k) → length (decimal n) ≤ suc k
unfolding decimal
length-decimal n k b = omega (arith, length-decimal_fuel (suc n) n k [] (omega arith) b)

pub isdigit-decimal : (n : ℕ) → isdigit (decimal n) ≡ true
isdigit-decimal n = rw (is_empty-decimal n, all_digits-decimal n) refl

-- Reading back a number that was printed gives the number.
pub to_int-decimal : (n : ℕ) → to_int (decimal n) ≡ some n
to_int-decimal n = rw (isdigit-decimal n, digits_value-decimal n) refl

all_digits-append :
    (s t : Text) → all_digits s ≡ true → all_digits t ≡ true → all_digits (s ++ t) ≡ true
all_digits-append [] t h k = k
all_digits-append (c ∷ s) t h k = ground (arith, all_digits-append s t)

all_digits-reverse : (s : Text) → all_digits s ≡ true → all_digits (reverse s) ≡ true
all_digits-reverse [] h = refl
all_digits-reverse (c ∷ s) h =
    rw (reverse-cons c s)
      (all_digits-append (reverse s) (c ∷ []) (all_digits-reverse s (ground arith)) (ground arith))

lstrip-digits : (s : Text) → all_digits s ≡ true → lstrip s ≡ s
unfolding is_space
lstrip-digits [] h = refl
lstrip-digits (c ∷ s) h = ground arith

-- A printed number has no white space around it.
pub strip-decimal : (n : ℕ) → strip (decimal n) ≡ decimal n
unfolding strip
strip-decimal n =
    let digits = all_digits-decimal n in
    rw
      (
        lstrip-digits (decimal n) digits,
        lstrip-digits (reverse (decimal n)) (all_digits-reverse (decimal n) digits),
      )
      (reverse-reverse (decimal n))
