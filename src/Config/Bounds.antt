-- ===== src/Config/Bounds.antt =====
-- What a number of the environment can be.
use linebot.Prelude.{
  ℕ, ◌≤◌, Bool, true, false, Option, none, some, Text, arith, starts_with, codes, strip, Bool-cases,
  inl, inr, drop, to_int,
}
use linebot.Config.{bounded, parse_int_env}

abbrev InBounds : ℕ → ℕ → ℕ → Type 0
InBounds minimum maximum n = (minimum ≤ n) × (n ≤ maximum)

bounded-InBounds :
    (default minimum maximum : ℕ) (negative : Bool) (size : Option ℕ)
    → minimum ≤ default
    → default ≤ maximum
    → InBounds minimum maximum (bounded default minimum maximum negative size)
bounded-InBounds default minimum maximum negative none a b = (a, b)
bounded-InBounds default minimum maximum true (some size) a b = (omega arith, omega arith)
bounded-InBounds default minimum maximum false (some size) a b = (omega arith, omega arith)

-- Whatever the environment says, the number is within the bounds, if the default is.
pub parse_int_env_lem :
    (raw : Option Text) (default minimum maximum : ℕ)
    → minimum ≤ default
    → default ≤ maximum
    → (minimum ≤ parse_int_env raw default minimum maximum)
      × (parse_int_env raw default minimum maximum ≤ maximum)
unfolding parse_int_env
parse_int_env_lem none default minimum maximum a b = (a, b)
parse_int_env_lem (some raw) default minimum maximum a b =
    elim (Bool-cases (starts_with (strip raw) (codes "-"))) [
      | inl t ↦
          rw t (bounded-InBounds default minimum maximum true (to_int (drop 1 (strip raw))) a b)
      | inr f ↦ elim (Bool-cases (starts_with (strip raw) (codes "+"))) [
        | inl t ↦
            rw (f, t)
              (bounded-InBounds default minimum maximum false (to_int (drop 1 (strip raw))) a b)
        | inr u ↦
            rw (f, u) (bounded-InBounds default minimum maximum false (to_int (strip raw)) a b)
      ]
    ]
