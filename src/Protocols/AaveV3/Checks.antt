-- ===== src/Protocols/AaveV3/Checks.antt =====
-- src/protocols/aave_v3/adapter.rs: the validation of the requests and the queries.
use agent_execution_platform.Prelude.{
  ℕ, Bool, true, false, not, ◌&&◌, Option, none, some, ltb, ◌==◌,
}
use agent_execution_platform.Prelude.Text.{Text, text}
use agent_execution_platform.Prelude.Decimal.{exp10}
use agent_execution_platform.Prelude.Results.{Result, ok, fail_if, ◌>>=◌, ◌>>◌}
use agent_execution_platform.Crates.{U256, Ethers}
use agent_execution_platform.Protocols.Amounts.{
  ProtocolError, amount_zero, invalid_rate_mode, health_factor_below_one, resolve_amount,
  parse_decimal_amount, parse_address,
}
use agent_execution_platform.Protocols.AaveV3.{
  validate_chain_and_agent, validate_common_action, variable_rate_mode,
}
use agent_execution_platform.Protocols.AaveV3.Requests.{
  AaveSupplyRequest, AaveWithdrawRequest, AaveRepayRequest, AaveBorrowRequest, AavePositionQuery,
  AaveBalancesQuery,
}

abbrev pub unwrap_or : Option ℕ → ℕ → ℕ
unwrap_or none fallback = fallback
unwrap_or (some n) fallback = n

abbrev pub wrong_mode : ℕ → Bool
wrong_mode mode = not (mode == 1) && not (mode == 2)

module _ {u256 : U256} (eth : Ethers u256) where
  -- `if let Some(raw) = field { parse_address(raw, field)?; }`.
  abbrev check_address : Option Text → Text → Result ProtocolError (Unit {0})
  check_address none field = ok tt
  check_address (some raw) field = do parse_address eth raw field; ok tt

  -- The bound below which a borrower may not ask the guard to let the factor fall.
  abbrev check_health_factor : Option Text → Result ProtocolError (Unit {0})
  check_health_factor none = ok tt
  check_health_factor (some raw) = do
    min ← parse_decimal_amount u256 raw 18
    fail_if (ltb min (exp10 18)) health_factor_below_one

  unfoldable pub validate_supply_request : AaveSupplyRequest → Result ProtocolError (Unit {0})
  validate_supply_request req = do
    asset ← validate_common_action req.agent_id req.chain req.asset
    amount ← resolve_amount u256 req.amount req.amount_raw asset.decimals false
    fail_if (amount == 0) amount_zero
    ok tt

  unfoldable pub validate_withdraw_request : AaveWithdrawRequest → Result ProtocolError (Unit {0})
  validate_withdraw_request req = do
    asset ← validate_common_action req.agent_id req.chain req.asset
    amount ← resolve_amount u256 req.amount req.amount_raw asset.decimals true
    fail_if (amount == 0) amount_zero
    check_address req.to (text "to")
    ok tt

  unfoldable pub validate_repay_request : AaveRepayRequest → Result ProtocolError (Unit {0})
  validate_repay_request req = do
    asset ← validate_common_action req.agent_id req.chain req.asset
    amount ← resolve_amount u256 req.amount req.amount_raw asset.decimals true
    fail_if (amount == 0) amount_zero
    fail_if (wrong_mode (unwrap_or req.interest_rate_mode variable_rate_mode)) invalid_rate_mode
    check_address req.on_behalf_of (text "on_behalf_of")
    ok tt

  unfoldable pub validate_borrow_request : AaveBorrowRequest → Result ProtocolError (Unit {0})
  validate_borrow_request req = do
    asset ← validate_common_action req.agent_id req.chain req.asset
    amount ← resolve_amount u256 req.amount req.amount_raw asset.decimals true
    fail_if (amount == 0) amount_zero
    fail_if (wrong_mode (unwrap_or req.interest_rate_mode variable_rate_mode)) invalid_rate_mode
    check_address req.on_behalf_of (text "on_behalf_of")
    check_health_factor req.min_health_factor
    ok tt

abbrev pub validate_position_query : AavePositionQuery → Result ProtocolError (Unit {0})
validate_position_query query = validate_chain_and_agent query.agent_id query.chain

abbrev pub validate_balances_query : AaveBalancesQuery → Result ProtocolError (Unit {0})
validate_balances_query query = validate_chain_and_agent query.agent_id query.chain
