-- ===== src/Tests/Decimals.antt =====
-- Decimal digits in earnest, for the runs.
use agent_execution_platform.Prelude.{
  ℕ, zero, suc, ◌+◌, ◌/◌, ◌%◌, ◌<◌, ◌≡◌, refl, true, Bool-cases, inl, inr, Option, none, some, [],
  ◌∷◌, ◌++◌, ltb, if◌then◌else◌, arith,
}
use agent_execution_platform.Prelude.Text.{Text}
use agent_execution_platform.Prelude.Decimal.{
  all_digits, all_digits-append, dec_value, value_after-append, exp10,
}
use agent_execution_platform.Crates.{u256_bound}

abbrev pub from_dec_str : Text → Option ℕ
from_dec_str t =
    if all_digits t
    then (if ltb (dec_value t) u256_bound then some (dec_value t) else none)
    else none

pub from_dec_str-digits :
    (t : Text)
    → all_digits t ≡ true
    → from_dec_str t ≡ (if ltb (dec_value t) u256_bound then some (dec_value t) else none)
from_dec_str-digits t h = rw h refl

-- The digits of a number below 10 ^ k.
abbrev pub dec_digits : ℕ → ℕ → Text
dec_digits zero n = []
dec_digits (suc k) n =
    let front = dec_digits k (n / 10) in (if ltb n 10 then [] else front) ++ ((48 + n % 10) ∷ [])

pub dec_digits-digits : (k n : ℕ) → all_digits (dec_digits k n) ≡ true
dec_digits-digits zero n = refl
dec_digits-digits (suc k) n = elim (Bool-cases (ltb n 10)) [
  | inl e ↦ rw e (ground arith)
  | inr e ↦
      rw e
        (all_digits-append (dec_digits k (n / 10)) _ (dec_digits-digits k (n / 10)) (ground arith))
]

pub dec_digits-value : (k n : ℕ) → n < exp10 k → dec_value (dec_digits k n) ≡ n
dec_digits-value zero n h = omega arith
dec_digits-value (suc k) n h = elim (Bool-cases (ltb n 10)) [
  | inl e ↦ rw e (ground arith)
  | inr e ↦ rw e (
      omega (
        arith,
        value_after-append 0 (dec_digits k (n / 10)) ((48 + n % 10) ∷ []),
        dec_digits-value k (n / 10) (omega arith),
      ))
]
