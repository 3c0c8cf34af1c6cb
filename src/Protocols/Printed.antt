-- ===== src/Protocols/Printed.antt =====
-- src/protocols/*/adapter.rs: an amount that the services print into `amount_raw` is read back.
use agent_execution_platform.Prelude.{
  ℕ, ◌<◌, ◌≡◌, refl, Bool, true, false, ◌&&◌, none, some, [], ◌∷◌, arith, ltb, if◌then◌else◌,
}
use agent_execution_platform.Prelude.Text.{Text, text}
use agent_execution_platform.Prelude.Decimal.{all_digits, eq_ignore_ascii_case, trim_digits}
use agent_execution_platform.Prelude.Results.{ok, or_err}
use agent_execution_platform.Crates.{U256, u256_bound}
use agent_execution_platform.Protocols.Amounts.{raw_not_integer, resolve_amount, u256_max}

digits_not_max : (s : Text) → all_digits s ≡ true → eq_ignore_ascii_case s (text "max") ≡ false
digits_not_max [] h = refl
digits_not_max (c ∷ s) h = ground arith

module _ (u256 : U256) where
  -- The number that `to_string` prints is the amount that `amount_raw` stands for, whether "max"
  -- is allowed or not.
  pub resolve_amount-to_string :
      (n decimals : ℕ) (allow_max : Bool)
      → n < u256_bound
      → resolve_amount u256 none (some (u256.to_string n)) decimals allow_max ≡ ok n
  unfolding resolve_amount
  resolve_amount-to_string n decimals allow_max fits =
      let digits = u256.to_string_digits n in
      let value = u256.to_string_value n fits in
      rw
        (
          trim_digits (u256.to_string n) digits,
          digits_not_max (u256.to_string n) digits,
          u256.from_digits (u256.to_string n) digits,
          value,
        )
        (read allow_max n fits)
    where
      read :
          (b : Bool) (n : ℕ)
          → n < u256_bound
          → (if b && false
              then ok u256_max
              else or_err (if ltb n u256_bound then some n else none) raw_not_integer)
            ≡ ok n
      read true n h = ground arith
      read false n h = ground arith
