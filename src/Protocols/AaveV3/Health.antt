-- ===== src/Protocols/AaveV3/Health.antt =====
-- src/protocols/aave_v3/service.rs: the arithmetic of the borrow limit and of the health factor, in
-- U256 as natural numbers with the checks for overflow written out.
use agent_execution_platform.Prelude.{ℕ, ◌+◌, ◌-◌, ◌*◌, ◌/◌, ltb, leb, ◌==◌, if◌then◌else◌}
use agent_execution_platform.Prelude.Text.{Text}
use agent_execution_platform.Prelude.Decimal.{exp10}
use agent_execution_platform.Prelude.Results.{Result, ok, err, fail_if, map_err, ◌>>=◌, ◌>>◌}
use agent_execution_platform.Crates.{U256, u256_bound}
use agent_execution_platform.Protocols.Amounts.{ProtocolError}
use agent_execution_platform.Protocols.AaveV3.Requests.{AaveBorrowRequest, AaveAccountData}
use agent_execution_platform.Protocols.AaveV3.Reads.{min_health_factor_ray}

pub data AaveError : Type 0 where
  adapter : ProtocolError → AaveError
  -- The service's own message, which names the chain.
  unknown_chain : Text → AaveError
  -- A node that fails, or calldata that is no hex.
  node : Text → AaveError
  -- The registry, the factory of the wallets or the execution API.
  platform : Text → AaveError
  no_provider bad_calldata zero_price : AaveError
  amount_overflow invalid_decimals base_overflow invalid_price : AaveError
  collateral_overflow debt_overflow health_overflow : AaveError
  no_collateral no_available_borrows max_borrow_zero below_precision exceeds_available : AaveError
  projected_debt_zero health_factor_too_low : AaveError
  no_debt zero_balance max_repay_zero wrong_rate_mode : AaveError
  division_by_zero not_formatted : AaveError

abbrev pub checked_add : ℕ → ℕ → AaveError → Result AaveError ℕ
checked_add a b overflow = if ltb (a + b) u256_bound then ok (a + b) else err overflow

abbrev pub checked_mul : ℕ → ℕ → AaveError → Result AaveError ℕ
checked_mul a b overflow = if ltb (a * b) u256_bound then ok (a * b) else err overflow

abbrev pub checked_div : ℕ → ℕ → AaveError → Result AaveError ℕ
checked_div a b by_zero = if b == 0 then err by_zero else ok (a / b)

unfoldable pub token_amount_to_base : ℕ → ℕ → ℕ → Result AaveError ℕ
token_amount_to_base amount asset_price decimals = do
  product ← checked_mul amount asset_price amount_overflow
  checked_div product (exp10 decimals) invalid_decimals

unfoldable pub base_to_token_amount_floor : ℕ → ℕ → ℕ → Result AaveError ℕ
base_to_token_amount_floor base_amount asset_price decimals = do
  product ← checked_mul base_amount (exp10 decimals) base_overflow
  checked_div product asset_price invalid_price

abbrev pub min_u256 : ℕ → ℕ → ℕ
min_u256 a b = if ltb a b then a else b

-- The collateral at its liquidation threshold, which is in basis points.
unfoldable pub collateral_at_threshold : AaveAccountData → Result AaveError ℕ
collateral_at_threshold account = do
  product ←
      checked_mul account.total_collateral_base account.current_liquidation_threshold_bps
        collateral_overflow
  ok (product / 10_000)

unfoldable pub max_borrow_base_for_health : AaveAccountData → ℕ → Result AaveError ℕ
max_borrow_base_for_health account min_health_factor = do
  collateral ← collateral_at_threshold account
  scaled ← checked_mul collateral (exp10 18) debt_overflow
  max_projected_debt ← checked_div scaled min_health_factor division_by_zero
  if leb max_projected_debt account.total_debt_base
      then ok 0
      else ok (max_projected_debt - account.total_debt_base)

-- What `resolve_borrow_amount` takes for "max".
unfoldable pub max_borrow_amount : AaveAccountData → ℕ → ℕ → ℕ → Result AaveError ℕ
max_borrow_amount account min_health_factor asset_price decimals = do
  health_limited_base ← max_borrow_base_for_health account min_health_factor
  let max_base = min_u256 account.available_borrows_base health_limited_base
  amount ← base_to_token_amount_floor max_base asset_price decimals
  fail_if (amount == 0) max_borrow_zero
  ok amount

module _ (u256 : U256) where
  -- The checks of `guard_borrow_health` on the amount.
  unfoldable pub check_borrow :
      AaveBorrowRequest → AaveAccountData → ℕ → ℕ → ℕ → Result AaveError (Unit {0})
  check_borrow req account asset_price decimals amount = do
    requested_base ← token_amount_to_base amount asset_price decimals
    fail_if (requested_base == 0) below_precision
    fail_if (ltb account.available_borrows_base requested_base) exceeds_available
    projected_debt ← checked_add account.total_debt_base requested_base debt_overflow
    fail_if (projected_debt == 0) projected_debt_zero
    collateral ← collateral_at_threshold account
    scaled ← checked_mul collateral (exp10 18) health_overflow
    let projected_health_factor = scaled / projected_debt
    min_health_factor ← map_err adapter (min_health_factor_ray u256 req)
    fail_if (ltb projected_health_factor min_health_factor) health_factor_too_low
