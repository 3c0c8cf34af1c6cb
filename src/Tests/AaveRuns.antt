-- ===== src/Tests/AaveRuns.antt =====
-- Runs of the adapter and of the service of Aave V3, against a node that answers from a list.
use agent_execution_platform.Prelude.{
  ℕ, ◌*◌, ◌/◌, ◌≡◌, ◌≤◌, ◌↔◌, Bool, refl, ◌⊎◌, true, none, some, List, [], ◌∷◌, ◌++◌, arith,
}
use agent_execution_platform.Prelude.Text.{text, byte_len, trim, trim_start, is_whitespace}
use agent_execution_platform.Prelude.Decimal.{to_uppercase, exp10}
use agent_execution_platform.Prelude.Results.{ok, err}
use agent_execution_platform.Types.{Chain, ExecutionRequest, ethereum, from_str_loose}
use agent_execution_platform.Protocols.Amounts.{
  is_amount_max, parse_decimal_amount, parse_parts, parse_optional_address, resolve_amount,
}
use agent_execution_platform.Protocols.Printed.{resolve_amount-to_string}
use agent_execution_platform.Protocols.Parsing.{Writes, parse_decimal_amount_lem}
use agent_execution_platform.Protocols.AaveV3.{
  aave_v3_sepolia_pool, sepolia_assets, validate_common_action,
}
use agent_execution_platform.Protocols.AaveV3.Requests.{AaveBorrowRequest, AaveAccountData}
use agent_execution_platform.Protocols.AaveV3.Checks.{validate_borrow_request}
use agent_execution_platform.Protocols.AaveV3.Reads.{
  borrow_amount, encode_get_user_account_data, decode_user_account_data_values,
  asset_address_and_decimals, encode_addresses_provider, decode_address, decode_u256,
  encode_get_asset_price, encode_get_price_oracle, borrow_with_amount_raw, min_health_factor_ray,
  unwrap_text,
}
use agent_execution_platform.Protocols.AaveV3.Health.{
  below_precision, base_to_token_amount_floor, check_borrow, collateral_at_threshold,
  max_borrow_amount, max_borrow_base_for_health, token_amount_to_base,
}
use agent_execution_platform.Protocols.AaveV3.Resolve.{
  fetch_account_data, call_decoded, fetch_asset_price, call_address, call_u256,
  resolve_borrow_amount, guard_borrow_health,
}
use agent_execution_platform.Protocols.AaveV3.Guard.{IsSafe}
use agent_execution_platform.Protocols.AaveV3.Borrowing.{
  guard_borrow_health-IsSafe, guard_borrow_health_max,
}
use agent_execution_platform.Protocols.AaveV3.Compile.{encode_aave_borrow, compile_borrow}
use agent_execution_platform.Protocols.AaveV3.Accepted.{borrowing, validate-compile}
use agent_execution_platform.Engine.{validate}
use agent_execution_platform.Tests.Nodes.{Replies, on_ethereum}
use agent_execution_platform.Tests.CrateFixtures.{
  parsed, addr, hex, u256, eth, big_endian, decode, encode, decode_one, decode_all,
}
use agent_execution_platform.Protocols.Calldata.{encode_call}

parse_decimal_amount_lem_example : Writes (text "12.5") 6 12_500_000
unfolding parse_decimal_amount trim
parse_decimal_amount_lem_example =
    (parse_decimal_amount_lem u256 (text " 12.5 ") 6 12_500_000).0 refl

resolve_amount-to_string_example :
    resolve_amount u256 none (some (text "1844674407370955161600")) 18 true
    ≡ ok 1_844_674_407_370_955_161_600
resolve_amount-to_string_example =
    resolve_amount-to_string u256 1_844_674_407_370_955_161_600 18 true (omega arith)

-- A thousand of collateral, a debt of a hundred, and a threshold of four fifths, then the price.
abbrev replies : Replies
replies =
    (big_endian 32 100_000_000_000
      ++ big_endian 32 10_000_000_000
      ++ big_endian 32 65_000_000_000
      ++ big_endian 32 8000
      ++ big_endian 32 7500
      ++ big_endian 32 0)
    ∷ big_endian 32 7
    ∷ big_endian 32 8
    ∷ big_endian 32 100_000_000
    ∷ []

abbrev borrow_max : AaveBorrowRequest
borrow_max = record {
  agent_id = text "agent-1";
  chain = text "ethereum";
  asset = text "usdc";
  amount = some (text "MAX");
  amount_raw = none;
  interest_rate_mode = none;
  referral_code = none;
  on_behalf_of = none;
  min_health_factor = none;
  strategy_id = none;
  callback_url = none;
}

abbrev account : AaveAccountData
account = record {
  total_collateral_base = 100_000_000_000;
  total_debt_base = 10_000_000_000;
  available_borrows_base = 65_000_000_000;
  current_liquidation_threshold_bps = 8000;
  ltv_bps = 7500;
  health_factor = 0;
}

resolves :
    (resolve_borrow_amount hex eth on_ethereum ethereum borrow_max [] replies).0
    ≡ ok (borrow_with_amount_raw u256 borrow_max 650_000_000, account, 100_000_000, 6)
unfolding resolve_borrow_amount fetch_account_data decode call_decoded encode_get_user_account_data
    encode_call encode big_endian decode_user_account_data_values decode_one decode_all
    asset_address_and_decimals sepolia_assets to_uppercase trim fetch_asset_price call_address
    encode_addresses_provider is_whitespace trim_start base_to_token_amount_floor
    collateral_at_threshold max_borrow_amount max_borrow_base_for_health borrow_amount
    decode_address decode_u256 encode_get_asset_price encode_get_price_oracle min_health_factor_ray
    call_u256 is_amount_max parse_decimal_amount parse_parts resolve_amount
resolves = refl

passes :
    (guard_borrow_health hex eth on_ethereum ethereum borrow_max [] replies).0
    ≡ ok (borrow_with_amount_raw u256 borrow_max 650_000_000)
unfolding guard_borrow_health resolve_borrow_amount fetch_account_data decode call_decoded
    encode_get_user_account_data encode_call encode big_endian decode_user_account_data_values
    decode_one decode_all asset_address_and_decimals sepolia_assets to_uppercase trim
    fetch_asset_price call_address encode_addresses_provider is_whitespace trim_start
    base_to_token_amount_floor check_borrow collateral_at_threshold max_borrow_amount
    max_borrow_base_for_health token_amount_to_base borrow_amount decode_address decode_u256
    encode_get_asset_price encode_get_price_oracle min_health_factor_ray call_u256 is_amount_max
    parse_decimal_amount parse_parts resolve_amount
passes = refl

guard_borrow_health-IsSafe_example :
    (account : AaveAccountData) × (asset : List ℕ) × (price d amount requested min : ℕ)
    × ((fetch_account_data hex eth on_ethereum ethereum [] replies).0 ≡ ok account)
    × (asset_address_and_decimals eth (text "usdc") ≡ ok (asset, d))
    × ((fetch_asset_price hex eth on_ethereum ethereum asset
          (fetch_account_data hex eth on_ethereum ethereum [] replies).1).0
        ≡ ok price)
    × (borrow_amount u256 (borrow_with_amount_raw u256 borrow_max 650_000_000) ≡ ok amount)
    × (requested ≡ amount * price / exp10 d)
    × Writes (trim (unwrap_text borrow_max.min_health_factor (text "1.05"))) 18 min
    × IsSafe account requested min
guard_borrow_health-IsSafe_example =
    guard_borrow_health-IsSafe hex eth on_ethereum ethereum [] borrow_max
      (borrow_with_amount_raw u256 borrow_max 650_000_000) replies passes

max_asked : is_amount_max borrow_max.amount borrow_max.amount_raw ≡ true
unfolding is_amount_max trim
max_asked = refl

guard_borrow_health_max_example :
    let answer = (guard_borrow_health hex eth on_ethereum ethereum borrow_max [] replies).0 in
    (answer ≡ ok (borrow_with_amount_raw u256 borrow_max 650_000_000))
    ⊎ (answer ≡ err below_precision)
guard_borrow_health_max_example =
    guard_borrow_health_max hex eth on_ethereum ethereum [] borrow_max
      (borrow_with_amount_raw u256 borrow_max 650_000_000) account 100_000_000 6 replies max_asked
      resolves

-- Two units of USDC, for the wallet 9.
abbrev borrow_two : AaveBorrowRequest
borrow_two = record borrow_max { amount = some (text "2") }

abbrev borrowed : ExecutionRequest
borrowed = record {
  agent_id = text "agent-1";
  chain = text "ethereum";
  target_contract = eth.print_address (parsed aave_v3_sepolia_pool);
  calldata =
      encode_aave_borrow hex eth (parsed (text "0x94a9D9AC8a22534E3FaCa9F4e7F2E2cf85d5E4C8"))
        2_000_000 2 0 (addr 9);
  batch_calls = none;
  value = text "0";
  strategy_id = some (text "aave-v3-sepolia-borrow-USDC");
  callback_url = none;
}

compiles : compile_borrow hex eth borrow_two (addr 9) ≡ ok borrowed
unfolding compile_borrow validate_borrow_request validate_common_action from_str_loose trim
    resolve_amount parse_decimal_amount decode parse_optional_address
compiles = refl

validate-compile_example : (validate hex (λ c. true) borrowed ≡ ok ethereum) ↔ (
    (◌≡◌ {A = Chain} ethereum ethereum)
    × (◌≡◌ {A = Bool} true true)
    × (byte_len (text "agent-1") ≤ 256))
validate-compile_example =
    validate-compile hex eth (λ c. true) (borrowing borrow_two) (addr 9) borrowed ethereum
      (refl, omega arith) compiles
