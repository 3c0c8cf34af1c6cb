-- ===== src/Protocols/AaveV3/Reads.antt =====
-- src/protocols/aave_v3/adapter.rs: the reads of the pool, the oracle and the tokens.
use agent_execution_platform.Prelude.{ℕ, true, Option, none, some, List, [], ◌∷◌, replicate}
use agent_execution_platform.Prelude.Text.{Text, text}
use agent_execution_platform.Prelude.Results.{Result, ok, err, or_err, ◌>>=◌}
use agent_execution_platform.Crates.{
  Hex, U256, Ethers, Token, address, uint, tuple, fields, ParamType, address_type, uint_type,
  tuple_type,
}
use agent_execution_platform.Protocols.Amounts.{
  ProtocolError, unsupported_asset, bad_constant, unexpected_reply, undecodable_reply, panicked,
  resolve_amount, parse_decimal_amount,
}
use agent_execution_platform.Protocols.Calldata.{types, entry, selector, encode_call}
use agent_execution_platform.Protocols.AaveV3.{sepolia_assets, get, symbol_of, aave_v3_sepolia_pool}
use agent_execution_platform.Protocols.AaveV3.Requests.{
  AaveRepayRequest, AaveBorrowRequest, AaveAccountData, AaveReserveDebtTokens, AavePositionResponse,
}

abbrev pub unwrap_text : Option Text → Text → Text
unwrap_text none fallback = fallback
unwrap_text (some t) fallback = t

module _ (hex : Hex) {u256 : U256} (eth : Ethers u256) where
  unfoldable pub encode_get_user_account_data : List ℕ → Text
  encode_get_user_account_data user =
      encode_call hex eth (selector hex eth (text "getUserAccountData(address)"))
        (address user ∷ [])

  unfoldable pub encode_get_reserve_data : List ℕ → Text
  encode_get_reserve_data asset =
      encode_call hex eth (selector hex eth (text "getReserveData(address)")) (address asset ∷ [])

  unfoldable pub encode_addresses_provider : Text
  encode_addresses_provider =
      encode_call hex eth (selector hex eth (text "ADDRESSES_PROVIDER()")) []

  unfoldable pub encode_get_price_oracle : Text
  encode_get_price_oracle = encode_call hex eth (selector hex eth (text "getPriceOracle()")) []

  unfoldable pub encode_get_asset_price : List ℕ → Text
  encode_get_asset_price asset =
      encode_call hex eth (selector hex eth (text "getAssetPrice(address)")) (address asset ∷ [])

module _ {u256 : U256} (eth : Ethers u256) where
  abbrev decode : List ParamType → List ℕ → Result ProtocolError (List Token)
  decode asked raw = do
    tokens ← or_err (eth.decode_tokens (types asked) raw) undecodable_reply
    ok (fields tokens)

  abbrev first_address : List Token → Result ProtocolError (List ℕ)
  first_address (address value ∷ ts) = ok value
  first_address ts = err unexpected_reply

  unfoldable pub decode_address : List ℕ → Result ProtocolError (List ℕ)
  decode_address raw = do decoded ← decode (address_type ∷ []) raw; first_address decoded

  abbrev first_uint : List Token → Result ProtocolError ℕ
  first_uint (uint value ∷ ts) = ok value
  first_uint ts = err unexpected_reply

  unfoldable pub decode_u256 : List ℕ → Result ProtocolError ℕ
  decode_u256 raw = do decoded ← decode (uint_type 256 ∷ []) raw; first_uint decoded

  abbrev first_tuple : List Token → Result ProtocolError (List Token)
  first_tuple (tuple ts ∷ more) = ok (fields ts)
  first_tuple ts = err unexpected_reply

  abbrev debt_tokens :
      Option Token → Option Token → Option Token → Result ProtocolError AaveReserveDebtTokens
  debt_tokens (some (address a_token)) (some (address stable)) (some (address variable)) =
      ok (record { a_token = a_token; stable_debt_token = stable; variable_debt_token = variable })
  debt_tokens a s v = err unexpected_reply

  -- The fields of Aave's `ReserveData`.
  abbrev reserve_data : List ParamType
  reserve_data =
      tuple_type (types (uint_type 256 ∷ []))
      ∷ uint_type 128
      ∷ uint_type 128
      ∷ uint_type 128
      ∷ uint_type 128
      ∷ uint_type 128
      ∷ uint_type 40
      ∷ uint_type 16
      ∷ address_type
      ∷ address_type
      ∷ address_type
      ∷ address_type
      ∷ uint_type 128
      ∷ uint_type 128
      ∷ uint_type 128
      ∷ []

  unfoldable pub decode_reserve_debt_tokens : List ℕ → Result ProtocolError AaveReserveDebtTokens
  decode_reserve_debt_tokens raw = do
    decoded ← decode (tuple_type (types reserve_data) ∷ []) raw
    tokens ← first_tuple decoded
    debt_tokens (entry 8 tokens) (entry 9 tokens) (entry 10 tokens)

  abbrev uints : List Token → Result ProtocolError (List ℕ)
  uints [] = ok []
  uints (uint value ∷ ts) = do values ← uints ts; ok (value ∷ values)
  uints (t ∷ ts) = err unexpected_reply

  -- `values[0]` to `values[5]`.
  abbrev account_data : List ℕ → Result ProtocolError AaveAccountData
  account_data (collateral ∷ debt ∷ available ∷ threshold ∷ ltv ∷ health ∷ more) = ok (record {
    total_collateral_base = collateral;
    total_debt_base = debt;
    available_borrows_base = available;
    current_liquidation_threshold_bps = threshold;
    ltv_bps = ltv;
    health_factor = health;
  })
  account_data values = err panicked

  unfoldable pub decode_user_account_data_values : List ℕ → Result ProtocolError AaveAccountData
  decode_user_account_data_values raw = do
    decoded ← decode (replicate 6 (uint_type 256)) raw
    values ← uints decoded
    account_data values

  unfoldable pub decode_user_account_data :
      List ℕ → Text → Text → List ℕ → Result ProtocolError AavePositionResponse
  decode_user_account_data raw agent_id chain smart_wallet_address = do
    values ← decode_user_account_data_values raw
    ok (record {
      agent_id = agent_id;
      chain = chain;
      smart_wallet_address = eth.print_address smart_wallet_address;
      pool_address = aave_v3_sepolia_pool;
      total_collateral_base = u256.to_string values.total_collateral_base;
      total_debt_base = u256.to_string values.total_debt_base;
      available_borrows_base = u256.to_string values.available_borrows_base;
      current_liquidation_threshold_bps = u256.to_string values.current_liquidation_threshold_bps;
      ltv_bps = u256.to_string values.ltv_bps;
      health_factor = u256.to_string values.health_factor;
    })

  unfoldable pub asset_address_and_decimals : Text → Result ProtocolError (List ℕ × ℕ)
  asset_address_and_decimals symbol = do
    asset ← or_err (get sepolia_assets (symbol_of symbol)) unsupported_asset
    underlying ← or_err (eth.parse_address asset.underlying) bad_constant
    ok (underlying, asset.decimals)

module _ (u256 : U256) where
  unfoldable pub borrow_amount : AaveBorrowRequest → Result ProtocolError ℕ
  borrow_amount req = do
    asset ← or_err (get sepolia_assets (symbol_of req.asset)) unsupported_asset
    resolve_amount u256 req.amount req.amount_raw asset.decimals true

  abbrev pub repay_with_amount_raw : AaveRepayRequest → ℕ → AaveRepayRequest
  repay_with_amount_raw req amount = record req {
    amount = none;
    amount_raw = some (u256.to_string amount);
  }

  abbrev pub borrow_with_amount_raw : AaveBorrowRequest → ℕ → AaveBorrowRequest
  borrow_with_amount_raw req amount = record req {
    amount = none;
    amount_raw = some (u256.to_string amount);
  }

  unfoldable pub min_health_factor_ray : AaveBorrowRequest → Result ProtocolError ℕ
  min_health_factor_ray req =
      parse_decimal_amount u256 (unwrap_text req.min_health_factor (text "1.05")) 18
