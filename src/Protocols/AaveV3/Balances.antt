-- ===== src/Protocols/AaveV3/Balances.antt =====
-- src/protocols/aave_v3/service.rs and adapter.rs: the balances of a wallet in every asset of the market.
use agent_execution_platform.Prelude.{
  ℕ, Bool, true, false, Option, List, [], ◌∷◌, ltb, ◌==◌, if◌then◌else◌,
}
use agent_execution_platform.Prelude.Text.{Text}
use agent_execution_platform.Prelude.Results.{or_err, map_err}
use agent_execution_platform.Prelude.Actions.{Action, pure, lift, ◌>>=◌, ◌>>◌}
use agent_execution_platform.Types.{Chain}
use agent_execution_platform.Crates.{Hex, U256, Ethers, Provider}
use agent_execution_platform.Protocols.Amounts.{panicked}
use agent_execution_platform.Protocols.Calldata.{encode_balance_of}
use agent_execution_platform.Protocols.Platform.{Platform}
use agent_execution_platform.Protocols.AaveV3.{sepolia_assets, aave_v3_sepolia_pool}
use agent_execution_platform.Protocols.AaveV3.Requests.{
  AaveAsset, AaveAssetBalance, AaveBalancesQuery, AaveBalancesResponse,
}
use agent_execution_platform.Protocols.AaveV3.Checks.{validate_balances_query}
use agent_execution_platform.Protocols.AaveV3.Health.{AaveError, adapter, not_formatted}
use agent_execution_platform.Protocols.AaveV3.Resolve.{call_u256, fetch_reserve_debt_tokens}
use agent_execution_platform.Protocols.AaveV3.Service.{known_chain, wallet_address}

-- The order of `str`, by its scalar values, which is that of its bytes.
abbrev pub text_lt : Text → Text → Bool
text_lt s [] = false
text_lt [] (d ∷ t) = true
text_lt (c ∷ s) (d ∷ t) = if c == d then text_lt s t else ltb c d

abbrev insert : Text × AaveAsset → List (Text × AaveAsset) → List (Text × AaveAsset)
insert entry [] = entry ∷ []
insert (k, a) ((k', a') ∷ entries) =
    let rest = insert (k, a) entries in
    if text_lt k k' then (k, a) ∷ ((k', a') ∷ entries) else (k', a') ∷ rest

abbrev sorted : List (Text × AaveAsset) → List (Text × AaveAsset)
sorted [] = []
sorted (entry ∷ entries) = insert entry (sorted entries)

-- The assets by their symbols, with the addresses that the node is asked about.
unfoldable pub supported_assets : List (Text × AaveAsset)
supported_assets = sorted sepolia_assets

module _ {W : Type 0} (hex : Hex) {u256 : U256} (eth : Ethers u256)
    (provider_for_chain : Chain → Option (Provider W)) (services : Platform W)
    (format_units : ℕ → ℕ → Option Text) where
  abbrev format_token_units : ℕ → ℕ → Action W AaveError Text
  format_token_units value decimals = lift (or_err (format_units value decimals) not_formatted)

  -- The four reads, which the code makes at once, one after the other.
  unfoldable pub asset_balance :
      Chain → List ℕ → Text → AaveAsset → Action W AaveError AaveAssetBalance
  asset_balance chain smart_wallet_address symbol asset = do
    underlying ← lift (or_err (eth.parse_address asset.underlying) (adapter panicked))
    let decimals = asset.decimals
    tokens ← fetch_reserve_debt_tokens hex eth provider_for_chain chain underlying
    let balance_call = encode_balance_of hex eth smart_wallet_address
    wallet_balance ← call_u256 hex eth provider_for_chain chain underlying balance_call
    a_token_balance ← call_u256 hex eth provider_for_chain chain tokens.a_token balance_call
    stable_debt ← call_u256 hex eth provider_for_chain chain tokens.stable_debt_token balance_call
    variable_debt ←
        call_u256 hex eth provider_for_chain chain tokens.variable_debt_token balance_call
    wallet_text ← format_token_units wallet_balance decimals
    a_token_text ← format_token_units a_token_balance decimals
    stable_text ← format_token_units stable_debt decimals
    variable_text ← format_token_units variable_debt decimals
    pure (record {
      symbol = symbol;
      underlying_address = eth.print_address underlying;
      decimals = decimals;
      wallet_balance_raw = u256.to_string wallet_balance;
      wallet_balance_formatted = wallet_text;
      a_token_address = eth.print_address tokens.a_token;
      a_token_balance_raw = u256.to_string a_token_balance;
      a_token_balance_formatted = a_token_text;
      stable_debt_token_address = eth.print_address tokens.stable_debt_token;
      stable_debt_balance_raw = u256.to_string stable_debt;
      stable_debt_balance_formatted = stable_text;
      variable_debt_token_address = eth.print_address tokens.variable_debt_token;
      variable_debt_balance_raw = u256.to_string variable_debt;
      variable_debt_balance_formatted = variable_text;
    })

  unfoldable pub asset_balances :
      Chain → List ℕ → List (Text × AaveAsset) → Action W AaveError (List AaveAssetBalance)
  asset_balances chain smart_wallet_address [] = pure []
  asset_balances chain smart_wallet_address ((symbol, asset) ∷ entries) = do
    balance ← asset_balance chain smart_wallet_address symbol asset
    balances ← asset_balances chain smart_wallet_address entries
    pure (balance ∷ balances)

  unfoldable pub handle_balances : ℕ → AaveBalancesQuery → Action W AaveError AaveBalancesResponse
  handle_balances api_key_id query = do
    lift (map_err adapter (validate_balances_query query))
    chain ← lift (known_chain query.chain)
    smart_wallet_address ←
        wallet_address hex eth provider_for_chain services api_key_id query.agent_id chain
    assets ← asset_balances chain smart_wallet_address supported_assets
    pure (record {
      agent_id = query.agent_id;
      chain = query.chain;
      smart_wallet_address = eth.print_address smart_wallet_address;
      pool_address = aave_v3_sepolia_pool;
      assets = assets;
    })
