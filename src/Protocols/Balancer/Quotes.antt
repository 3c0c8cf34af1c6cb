-- ===== src/Protocols/Balancer/Quotes.antt =====
-- src/protocols/balancer_v3/service.rs: the reads of a pool, and the quote for a swap. The reads that
-- run at the same time in the code are in order here.
use agent_execution_platform.Prelude.{
  ℕ, Bool, true, false, not, Option, none, List, [], ◌∷◌, length, ◌==◌, if◌then◌else◌, map,
}
use agent_execution_platform.Prelude.Text.{Text, text, contains, ascii_lower}
use agent_execution_platform.Prelude.Results.{Result, or_err}
use agent_execution_platform.Prelude.Actions.{Action, pure, raise, lift, raise_as, ◌>>=◌, ◌>>◌}
use agent_execution_platform.Types.{Chain}
use agent_execution_platform.Crates.{Hex, U256, Ethers, Provider, address}
use agent_execution_platform.Protocols.Calldata.{selector, encode_call}
use agent_execution_platform.Protocols.Balancer.{
  BalancerSwapRequest, PoolState, BalancerError, bad_constant, lengths_differ, no_provider, node,
  not_registered, not_initialized, paused, in_recovery, token_not_in_pool, swaps_disabled,
  quote_refused, balancer_v3_sepolia_router, balancer_v3_sepolia_vault_explorer,
}
use agent_execution_platform.Protocols.Balancer.Checks.{parse_address}
use agent_execution_platform.Protocols.Balancer.Pools.{
  has_token, decode_u256, decode_bool, decode_u256_array, decode_pool_token_info, encode_query_swap,
  parse_calldata,
}

-- `if test { return Err(e) }`.
abbrev refuse_if : {W : Type 0} → Bool → BalancerError → Action W BalancerError (Unit {0})
refuse_if true e = raise e
refuse_if false e = pure tt

-- A refusal of the router, by what it says.
abbrev quote_error : BalancerError → BalancerError
quote_error (node raw) =
    if contains (text "0xfdf79845") (map ascii_lower raw)
    then swaps_disabled
    else quote_refused (node raw)
quote_error e = quote_refused e

module _ {W : Type 0} (hex : Hex) {u256 : U256} (eth : Ethers u256)
    (provider_for_chain : Chain → Option (Provider W)) where
  unfoldable pub call_raw : Chain → List ℕ → Text → Action W BalancerError (List ℕ)
  call_raw chain target calldata = do
    provider ← lift (or_err (provider_for_chain chain) no_provider)
    bytes ← lift (parse_calldata hex eth calldata)
    raise_as node
        (provider.call (record { from = none; to = target; calldata = bytes; value = none }))

  -- A call, and the reading of what it returns.
  abbrev call_for :
      {A : Type 0}
      → (List ℕ → Result BalancerError A)
      → Chain
      → List ℕ
      → Text
      → Action W BalancerError A
  call_for decode chain target calldata = do raw ← call_raw chain target calldata; lift (decode raw)

  -- A view of the explorer of the vault, of one pool.
  abbrev view_call : Text → List ℕ → Text
  view_call signature pool = encode_call hex eth (selector hex eth signature) (address pool ∷ [])

  unfoldable pub load_pool_state : Chain → List ℕ → Action W BalancerError PoolState
  load_pool_state chain pool = do
    explorer ← lift (or_err (eth.parse_address balancer_v3_sepolia_vault_explorer) bad_constant)
    is_registered ←
        call_for (decode_bool eth) chain explorer
          (view_call (text "isPoolRegistered(address)") pool)
    refuse_if (not is_registered) not_registered
    token_info_raw ← call_raw chain explorer (view_call (text "getPoolTokenInfo(address)") pool)
    live_balances ←
        call_for (decode_u256_array eth) chain explorer
          (view_call (text "getCurrentLiveBalances(address)") pool)
    is_initialized ←
        call_for (decode_bool eth) chain explorer
          (view_call (text "isPoolInitialized(address)") pool)
    is_paused ←
        call_for (decode_bool eth) chain explorer (view_call (text "isPoolPaused(address)") pool)
    recovery ←
        call_for (decode_bool eth) chain explorer
          (view_call (text "isPoolInRecoveryMode(address)") pool)
    fee ←
        call_for (decode_u256 eth) chain explorer
          (view_call (text "getStaticSwapFeePercentage(address)") pool)
    (tokens, raw_balances) ← lift (decode_pool_token_info eth token_info_raw)
    refuse_if (not (length tokens == length live_balances)) lengths_differ
    pure (record {
      tokens = tokens;
      raw_balances = raw_balances;
      live_balances = live_balances;
      is_initialized = is_initialized;
      is_paused = is_paused;
      is_in_recovery_mode = recovery;
      static_swap_fee_percentage = fee;
    })

  unfoldable pub validate_pool_for_swap :
      Chain → BalancerSwapRequest → Action W BalancerError (Unit {0})
  validate_pool_for_swap chain req = do
    pool ← lift (parse_address eth req.pool (text "pool"))
    token_in ← lift (parse_address eth req.token_in (text "token_in"))
    token_out ← lift (parse_address eth req.token_out (text "token_out"))
    state ← load_pool_state chain pool
    refuse_if (not state.is_initialized) not_initialized
    refuse_if state.is_paused paused
    refuse_if state.is_in_recovery_mode in_recovery
    refuse_if (not (has_token state.tokens token_in)) token_not_in_pool
    refuse_if (not (has_token state.tokens token_out)) token_not_in_pool

  unfoldable pub quote_swap : Chain → BalancerSwapRequest → List ℕ → Action W BalancerError ℕ
  quote_swap chain req sender = do
    calldata ← lift (encode_query_swap hex eth req sender)
    router ← lift (or_err (eth.parse_address balancer_v3_sepolia_router) bad_constant)
    raise_as quote_error (call_for (decode_u256 eth) chain router calldata)
