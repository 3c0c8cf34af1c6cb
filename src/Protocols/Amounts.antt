-- ===== src/Protocols/Amounts.antt =====
-- src/protocols/aave_v3/adapter.rs: the amounts and the addresses of a request. The adapter of
-- Compound III (src/protocols/compound_v3/adapter.rs) has the same `parse_decimal_amount` and the
-- same `is_amount_max`.
use agent_execution_platform.Prelude.{
  ℕ, ◌+◌, ◌-◌, Bool, false, not, ◌&&◌, ◌||◌, Option, none, some, List, [], ◌∷◌, ◌++◌, ltb, length,
  replicate, if◌then◌else◌,
}
use agent_execution_platform.Prelude.Text.{Text, text, is_empty, byte_len, starts_with, trim}
use agent_execution_platform.Prelude.Decimal.{all_digits, trim_zeros, split, eq_ignore_ascii_case}
use agent_execution_platform.Prelude.Results.{Result, ok, err, or_err, fail_if, ◌>>◌}
use agent_execution_platform.Crates.{U256, Ethers, u256_bound}

-- The messages of the adapters, by what they complain of.
pub data ProtocolError : Type 0 where
  unsupported_chain wrong_chain agent_id_required unsupported_asset : ProtocolError
  both_amounts no_amount amount_empty amount_negative decimal_points : ProtocolError
  not_decimal decimal_places amount_too_large raw_not_integer amount_zero : ProtocolError
  -- The field that holds no address.
  invalid_address : Text → ProtocolError
  -- A constant that is no address.
  bad_constant bad_address : ProtocolError
  invalid_rate_mode health_factor_below_one : ProtocolError
  -- A reply that is not what was asked for, and one that is no data at all.
  unexpected_reply undecodable_reply : ProtocolError
  -- An `expect` or an index that fails, an overflow of U256 and a division by zero.
  panicked : ProtocolError

abbrev pub u256_max : ℕ
u256_max = u256_bound - 1

abbrev pub first_or_empty : List Text → Text
first_or_empty [] = []
first_or_empty (t ∷ ts) = t

abbrev pub is_max : Text → Bool
is_max raw = eq_ignore_ascii_case (trim raw) (text "max")

abbrev max_given : Option Text → Bool
max_given none = false
max_given (some raw) = is_max raw

unfoldable pub is_amount_max : Option Text → Option Text → Bool
is_amount_max amount amount_raw = max_given amount || max_given amount_raw

module _ (u256 : U256) where
  -- The digits without the point and with the zeros that are missing.
  abbrev pub scaled : Text → Text → ℕ → Text
  scaled whole fractional decimals =
      (if is_empty whole then text "0" else whole)
      ++ fractional
      ++ replicate (decimals - byte_len fractional) b'0'

  abbrev pub read_digits : Text → Result ProtocolError ℕ
  read_digits normalized =
      let trimmed = trim_zeros normalized in
      if is_empty trimmed then ok 0 else or_err (u256.from_dec_str trimmed) amount_too_large

  -- The checks on the parts of a text that `.` separates.
  unfoldable pub parse_parts : Text → List Text → ℕ → Result ProtocolError ℕ
  parse_parts whole parts decimals = do
    fail_if (ltb 2 (1 + length parts)) decimal_points
    let fractional = first_or_empty parts
    fail_if (is_empty whole && is_empty fractional) amount_empty
    fail_if (not (all_digits whole) || not (all_digits fractional)) not_decimal
    fail_if (ltb decimals (byte_len fractional)) decimal_places
    read_digits (scaled whole fractional decimals)

  unfoldable pub parse_decimal_amount : Text → ℕ → Result ProtocolError ℕ
  unfolding parse_parts
  parse_decimal_amount raw decimals = do
    let trimmed = trim raw
    fail_if (is_empty trimmed) amount_empty
    fail_if (starts_with (text "-") trimmed) amount_negative
    let (whole, parts) = split b'.' trimmed
    parse_parts whole parts decimals

  unfoldable pub resolve_amount : Option Text → Option Text → ℕ → Bool → Result ProtocolError ℕ
  resolve_amount (some amount) (some raw) decimals allow_max = err both_amounts
  resolve_amount (some amount) none decimals allow_max =
      if allow_max && is_max amount then ok u256_max else parse_decimal_amount amount decimals
  resolve_amount none (some raw) decimals allow_max =
      if allow_max && is_max raw
      then ok u256_max
      else or_err (u256.from_dec_str (trim raw)) raw_not_integer
  resolve_amount none none decimals allow_max = err no_amount

module _ {u256 : U256} (eth : Ethers u256) where
  unfoldable pub parse_address : Text → Text → Result ProtocolError (List ℕ)
  parse_address raw field = or_err (eth.parse_address raw) (invalid_address field)

  unfoldable pub parse_optional_address :
      Option Text → List ℕ → Text → Result ProtocolError (List ℕ)
  parse_optional_address none fallback field = ok fallback
  parse_optional_address (some value) fallback field = parse_address value field
