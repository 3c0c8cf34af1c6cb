-- ===== src/Protocols/AaveV3.antt =====
-- src/protocols/aave_v3/adapter.rs: the market, the validation of requests and their compilation.
pub mod Requests
pub mod Checks
pub mod Compile
pub mod Reads
pub mod Health
pub mod Resolve
pub mod Guard
pub mod MaxBorrow
pub mod Borrowing
pub mod Service
pub mod Balances
pub mod Compiled
pub mod Accepted
use agent_execution_platform.Prelude.{
  ℕ, Bool, true, false, not, ◌&&◌, Option, none, some, List, [], ◌∷◌, ◌++◌, ltb, ◌==◌,
  if◌then◌else◌,
}
use agent_execution_platform.Prelude.Text.{Text, text, text_eq, is_empty, trim}
use agent_execution_platform.Prelude.Decimal.{to_uppercase, exp10}
use agent_execution_platform.Prelude.Results.{Result, ok, err, or_err, fail_if, ◌>>=◌, ◌>>◌}
use agent_execution_platform.Types.{
  Chain, ethereum, base, arbitrum, from_str_loose, BatchCall, ExecutionRequest,
}
use agent_execution_platform.Crates.{Hex, U256, Ethers, address, uint}
use agent_execution_platform.Protocols.Amounts.{
  ProtocolError, unsupported_chain, wrong_chain, agent_id_required, unsupported_asset, amount_zero,
  invalid_rate_mode, health_factor_below_one, bad_constant, panicked, resolve_amount,
  parse_decimal_amount, parse_address, parse_optional_address,
}
use agent_execution_platform.Protocols.Calldata.{selector, encode_call, encode_erc20_approve}
use agent_execution_platform.Protocols.AaveV3.Requests.{
  AaveSupplyRequest, AaveWithdrawRequest, AaveRepayRequest, AaveBorrowRequest, AavePositionQuery,
  AaveBalancesQuery, AaveAsset,
}

abbrev pub aave_v3_sepolia_pool : Text
aave_v3_sepolia_pool = text "0x6Ae43d3271ff6888e7Fc43Fd7321a503ff738951"

abbrev pub variable_rate_mode : ℕ
variable_rate_mode = 2

-- The map as the list of its entries, whose keys differ.
unfoldable pub sepolia_assets : List (Text × AaveAsset)
sepolia_assets =
    (
      text "USDC",
      record { underlying = text "0x94a9D9AC8a22534E3FaCa9F4e7F2E2cf85d5E4C8"; decimals = 6 },
    )
    ∷ (
      text "DAI",
      record { underlying = text "0xFF34B3d4Aee8ddCd6F9AFFFB6Fe49bD371b8a357"; decimals = 18 },
    )
    ∷ (
      text "LINK",
      record { underlying = text "0xf8Fb3713D459D7C1018BD0A49D19b4C44290EBE5"; decimals = 18 },
    )
    ∷ (
      text "WBTC",
      record { underlying = text "0x29f2D40B0605204364af54EC677bD022dA425d03"; decimals = 8 },
    )
    ∷ (
      text "WETH",
      record { underlying = text "0xC558DBdd856501FCd9aaF1E62eae57A9F0629a3c"; decimals = 18 },
    )
    ∷ (
      text "USDT",
      record { underlying = text "0xaA8E23Fb1079EA71e0a56F48a2aA51851D8433D0"; decimals = 6 },
    )
    ∷ (
      text "AAVE",
      record { underlying = text "0x88541670E55cC00bEEFD87eB59EDd1b7C511AC9a"; decimals = 18 },
    )
    ∷ (
      text "EURS",
      record { underlying = text "0x6d906e526a4e2Ca02097BA9d0caA3c382F52278E"; decimals = 2 },
    )
    ∷ (
      text "GHO",
      record { underlying = text "0xc4bF5CbDaBE595361438F8c6a187bDc330539c60"; decimals = 18 },
    )
    ∷ []

-- `HashMap::get`.
abbrev pub get : {A : Type 0} → List (Text × A) → Text → Option A
get [] key = none
get ((k, a) ∷ entries) key = if text_eq k key then some a else get entries key

abbrev pub is_ethereum : Chain → Bool
is_ethereum ethereum = true
is_ethereum base = false
is_ethereum arbitrum = false

unfoldable pub validate_chain_and_agent : Text → Text → Result ProtocolError (Unit {0})
validate_chain_and_agent agent_id chain = do
  known ← or_err (from_str_loose chain) unsupported_chain
  fail_if (not (is_ethereum known)) wrong_chain
  fail_if (is_empty (trim agent_id)) agent_id_required
  ok tt

abbrev pub symbol_of : Text → Text
symbol_of asset = to_uppercase (trim asset)

unfoldable pub validate_common_action : Text → Text → Text → Result ProtocolError AaveAsset
unfolding validate_chain_and_agent sepolia_assets to_uppercase
validate_common_action agent_id chain asset = do
  validate_chain_and_agent agent_id chain
  or_err (get sepolia_assets (symbol_of asset)) unsupported_asset
