-- ===== src/Protocols/AaveV3/Resolve.antt =====
-- src/protocols/aave_v3/service.rs: the reads from the node, the guard of a borrow and the amount of
-- a repayment.
use agent_execution_platform.Prelude.{
  ℕ, Bool, true, false, Option, none, some, List, ◌==◌, if◌then◌else◌,
}
use agent_execution_platform.Prelude.Text.{Text, strip_0x}
use agent_execution_platform.Prelude.Results.{Result, ok, err, or_err, map_err}
use agent_execution_platform.Prelude.Actions.{Action, pure, raise, lift, raise_as, ◌>>=◌, ◌>>◌}
use agent_execution_platform.Types.{Chain}
use agent_execution_platform.Crates.{Hex, U256, Ethers, Provider}
use agent_execution_platform.Protocols.Amounts.{
  ProtocolError, bad_constant, is_amount_max, bad_address,
}
use agent_execution_platform.Protocols.Calldata.{encode_balance_of}
use agent_execution_platform.Protocols.AaveV3.{aave_v3_sepolia_pool}
use agent_execution_platform.Protocols.AaveV3.Requests.{
  AaveRepayRequest, AaveBorrowRequest, AaveAccountData, AaveReserveDebtTokens,
}
use agent_execution_platform.Protocols.AaveV3.Checks.{unwrap_or}
use agent_execution_platform.Protocols.AaveV3.Reads.{
  encode_get_user_account_data, encode_get_reserve_data, encode_addresses_provider,
  encode_get_price_oracle, encode_get_asset_price, decode_address, decode_u256,
  decode_reserve_debt_tokens, decode_user_account_data_values, asset_address_and_decimals,
  borrow_amount, repay_with_amount_raw, borrow_with_amount_raw, min_health_factor_ray,
}
use agent_execution_platform.Protocols.AaveV3.Health.{
  AaveError, adapter, node, no_provider, bad_calldata, zero_price, no_collateral,
  no_available_borrows, no_debt, zero_balance, max_repay_zero, wrong_rate_mode, min_u256,
  max_borrow_amount, check_borrow,
}

-- `if test { bail!(e) }`.
abbrev pub bail_if : {C E : Type 0} → Bool → E → Action C E (Unit {0})
bail_if true e = raise e
bail_if false e = pure tt

module _ {C : Type 0} (hex : Hex) {u256 : U256} (eth : Ethers u256)
    (provider_for_chain : Chain → Option (Provider C)) where
  -- A call of `to`, and the reading of what it returns.
  unfoldable pub call_decoded :
      {A : Type 0}
      → Chain
      → List ℕ
      → Text
      → (List ℕ → Result ProtocolError A)
      → Action C AaveError A
  call_decoded chain to calldata decode = do
    provider ← lift (or_err (provider_for_chain chain) no_provider)
    bytes ← lift (or_err (hex.decode (strip_0x calldata)) bad_calldata)
    raw ←
        raise_as node
          (provider.call (record { from = none; to = to; calldata = bytes; value = none }))
    lift (map_err adapter (decode raw))

  unfoldable pub call_u256 : Chain → List ℕ → Text → Action C AaveError ℕ
  call_u256 chain to calldata = call_decoded chain to calldata (decode_u256 eth)

  unfoldable pub call_address : Chain → List ℕ → Text → Action C AaveError (List ℕ)
  call_address chain to calldata = call_decoded chain to calldata (decode_address eth)

  abbrev pub pool_addr : Result AaveError (List ℕ)
  pool_addr = or_err (eth.parse_address aave_v3_sepolia_pool) (adapter bad_constant)

  unfoldable pub fetch_reserve_debt_tokens :
      Chain → List ℕ → Action C AaveError AaveReserveDebtTokens
  fetch_reserve_debt_tokens chain asset = do
    pool ← lift pool_addr
    call_decoded chain pool (encode_get_reserve_data hex eth asset) (decode_reserve_debt_tokens eth)

  unfoldable pub fetch_account_data : Chain → List ℕ → Action C AaveError AaveAccountData
  fetch_account_data chain smart_wallet_address = do
    pool ← lift pool_addr
    call_decoded chain pool (encode_get_user_account_data hex eth smart_wallet_address)
        (decode_user_account_data_values eth)

  unfoldable pub fetch_asset_price : Chain → List ℕ → Action C AaveError ℕ
  fetch_asset_price chain asset = do
    pool ← lift pool_addr
    addresses_provider ← call_address chain pool (encode_addresses_provider hex eth)
    oracle ← call_address chain addresses_provider (encode_get_price_oracle hex eth)
    asset_price ← call_u256 chain oracle (encode_get_asset_price hex eth asset)
    bail_if (asset_price == 0) zero_price
    pure asset_price

  -- The amount of a borrow, by whether "max" is asked for.
  abbrev pub borrow_amount_at : AaveBorrowRequest → AaveAccountData → ℕ → ℕ → ℕ → Result AaveError ℕ
  borrow_amount_at req account min_health_factor asset_price decimals =
      if is_amount_max req.amount req.amount_raw
      then max_borrow_amount account min_health_factor asset_price decimals
      else map_err adapter (borrow_amount u256 req)

  unfoldable pub resolve_borrow_amount :
      Chain
      → AaveBorrowRequest
      → List ℕ
      → Action C AaveError (AaveBorrowRequest × AaveAccountData × ℕ × ℕ)
  resolve_borrow_amount chain req smart_wallet_address = do
    account ← fetch_account_data chain smart_wallet_address
    bail_if (account.total_collateral_base == 0) no_collateral
    bail_if (account.available_borrows_base == 0) no_available_borrows
    (asset, decimals) ← lift (map_err adapter (asset_address_and_decimals eth req.asset))
    asset_price ← fetch_asset_price chain asset
    min_health_factor ← lift (map_err adapter (min_health_factor_ray u256 req))
    amount ← lift (borrow_amount_at req account min_health_factor asset_price decimals)
    pure (borrow_with_amount_raw u256 req amount, account, asset_price, decimals)

  unfoldable pub guard_borrow_health :
      Chain → AaveBorrowRequest → List ℕ → Action C AaveError AaveBorrowRequest
  guard_borrow_health chain req smart_wallet_address = do
    (resolved_req, account, asset_price, decimals) ←
        resolve_borrow_amount chain req smart_wallet_address
    amount ← lift (map_err adapter (borrow_amount u256 resolved_req))
    lift (check_borrow u256 req account asset_price decimals amount)
    pure resolved_req

  abbrev debt_token : AaveReserveDebtTokens → ℕ → Result AaveError (List ℕ)
  debt_token tokens mode =
      if mode == 1
      then ok tokens.stable_debt_token
      else if mode == 2
      then ok tokens.variable_debt_token
      else err wrong_rate_mode

  abbrev debt_owner : Option Text → List ℕ → Result AaveError (List ℕ)
  debt_owner none smart_wallet_address = ok smart_wallet_address
  debt_owner (some raw) smart_wallet_address = or_err (eth.parse_address raw) (adapter bad_address)

  -- The steps for "max".
  unfoldable pub resolve_max_repay :
      Chain → AaveRepayRequest → List ℕ → Action C AaveError AaveRepayRequest
  resolve_max_repay chain req smart_wallet_address = do
    (asset, decimals) ← lift (map_err adapter (asset_address_and_decimals eth req.asset))
    tokens ← fetch_reserve_debt_tokens chain asset
    owner ← lift (debt_owner req.on_behalf_of smart_wallet_address)
    token ← lift (debt_token tokens (unwrap_or req.interest_rate_mode 2))
    debt ← call_u256 chain token (encode_balance_of hex eth owner)
    bail_if (debt == 0) no_debt
    wallet_balance ← call_u256 chain asset (encode_balance_of hex eth smart_wallet_address)
    bail_if (wallet_balance == 0) zero_balance
    let amount = min_u256 debt wallet_balance
    bail_if (amount == 0) max_repay_zero
    pure (repay_with_amount_raw u256 req amount)

  unfoldable pub resolve_repay_amount :
      Chain → AaveRepayRequest → List ℕ → Action C AaveError AaveRepayRequest
  resolve_repay_amount chain req smart_wallet_address =
      if is_amount_max req.amount req.amount_raw
      then resolve_max_repay chain req smart_wallet_address
      else pure req
