-- ===== src/Protocols/AaveV3/Service.antt =====
-- src/protocols/aave_v3/service.rs: the handlers of the actions, from a request to the execution API.
use agent_execution_platform.Prelude.{ℕ, Option, List, ◌++◌}
use agent_execution_platform.Prelude.Text.{Text, text}
use agent_execution_platform.Prelude.Results.{Result, or_err, map_err}
use agent_execution_platform.Prelude.Actions.{Action, lift, raise_as, ◌>>=◌, ◌>>◌}
use agent_execution_platform.Types.{Chain, from_str_loose, chain_to_string, ExecutionResponse}
use agent_execution_platform.Crates.{Hex, U256, Ethers, Provider}
use agent_execution_platform.Protocols.Platform.{Platform}
use agent_execution_platform.Protocols.AaveV3.Requests.{
  AaveSupplyRequest, AaveWithdrawRequest, AaveRepayRequest, AaveBorrowRequest, AavePositionQuery,
  AavePositionResponse,
}
use agent_execution_platform.Protocols.AaveV3.Checks.{
  validate_supply_request, validate_withdraw_request, validate_repay_request,
  validate_borrow_request, validate_position_query,
}
use agent_execution_platform.Protocols.AaveV3.Compile.{
  compile_supply, compile_withdraw, compile_repay, compile_borrow,
}
use agent_execution_platform.Protocols.AaveV3.Reads.{
  encode_get_user_account_data, decode_user_account_data,
}
use agent_execution_platform.Protocols.AaveV3.Health.{
  AaveError, adapter, unknown_chain, platform, no_provider,
}
use agent_execution_platform.Protocols.AaveV3.Resolve.{
  call_decoded, pool_addr, resolve_repay_amount, guard_borrow_health,
}

abbrev pub known_chain : Text → Result AaveError Chain
known_chain chain = or_err (from_str_loose chain) (unknown_chain chain)

abbrev failed : Text → Chain → Text → AaveError
failed action chain e =
    platform
      (text "Aave V3 " ++ action ++ text " on " ++ chain_to_string chain ++ text " failed: " ++ e)

module _ {W : Type 0} (hex : Hex) {u256 : U256} (eth : Ethers u256)
    (provider_for_chain : Chain → Option (Provider W)) (services : Platform W) where
  -- The wallet of the agent, and its address on the chain.
  unfoldable pub wallet_address : ℕ → Text → Chain → Action W AaveError (List ℕ)
  wallet_address api_key_id agent_id chain = do
    agent_wallet ← raise_as platform (services.get_or_create api_key_id agent_id)
    raise_as platform (services.resolve_chain_smart_wallet_address chain agent_wallet)

  unfoldable pub handle_supply : ℕ → AaveSupplyRequest → Action W AaveError ExecutionResponse
  handle_supply api_key_id req = do
    chain ← lift (known_chain req.chain)
    lift (map_err adapter (validate_supply_request eth req))
    smart_wallet_address ← wallet_address api_key_id req.agent_id chain
    execution_req ← lift (map_err adapter (compile_supply hex eth req smart_wallet_address))
    raise_as (failed (text "supply") chain) (services.handle_execute api_key_id execution_req)

  unfoldable pub handle_withdraw : ℕ → AaveWithdrawRequest → Action W AaveError ExecutionResponse
  handle_withdraw api_key_id req = do
    chain ← lift (known_chain req.chain)
    lift (map_err adapter (validate_withdraw_request eth req))
    smart_wallet_address ← wallet_address api_key_id req.agent_id chain
    execution_req ← lift (map_err adapter (compile_withdraw hex eth req smart_wallet_address))
    raise_as (failed (text "withdraw") chain) (services.handle_execute api_key_id execution_req)

  unfoldable pub handle_repay : ℕ → AaveRepayRequest → Action W AaveError ExecutionResponse
  handle_repay api_key_id req = do
    chain ← lift (known_chain req.chain)
    lift (map_err adapter (validate_repay_request eth req))
    smart_wallet_address ← wallet_address api_key_id req.agent_id chain
    resolved_req ← resolve_repay_amount hex eth provider_for_chain chain req smart_wallet_address
    execution_req ← lift (map_err adapter (compile_repay hex eth resolved_req smart_wallet_address))
    raise_as (failed (text "repay") chain) (services.handle_execute api_key_id execution_req)

  unfoldable pub handle_borrow : ℕ → AaveBorrowRequest → Action W AaveError ExecutionResponse
  handle_borrow api_key_id req = do
    chain ← lift (known_chain req.chain)
    lift (map_err adapter (validate_borrow_request eth req))
    smart_wallet_address ← wallet_address api_key_id req.agent_id chain
    resolved_req ← guard_borrow_health hex eth provider_for_chain chain req smart_wallet_address
    execution_req ←
        lift (map_err adapter (compile_borrow hex eth resolved_req smart_wallet_address))
    raise_as (failed (text "borrow") chain) (services.handle_execute api_key_id execution_req)

  unfoldable pub handle_supply_simulate :
      ℕ → AaveSupplyRequest → Action W AaveError ExecutionResponse
  handle_supply_simulate api_key_id req = do
    lift (map_err adapter (validate_supply_request eth req))
    chain ← lift (known_chain req.chain)
    smart_wallet_address ← wallet_address api_key_id req.agent_id chain
    execution_req ← lift (map_err adapter (compile_supply hex eth req smart_wallet_address))
    raise_as platform (services.handle_simulate api_key_id execution_req)

  unfoldable pub handle_withdraw_simulate :
      ℕ → AaveWithdrawRequest → Action W AaveError ExecutionResponse
  handle_withdraw_simulate api_key_id req = do
    lift (map_err adapter (validate_withdraw_request eth req))
    chain ← lift (known_chain req.chain)
    smart_wallet_address ← wallet_address api_key_id req.agent_id chain
    execution_req ← lift (map_err adapter (compile_withdraw hex eth req smart_wallet_address))
    raise_as platform (services.handle_simulate api_key_id execution_req)

  unfoldable pub handle_repay_simulate : ℕ → AaveRepayRequest → Action W AaveError ExecutionResponse
  handle_repay_simulate api_key_id req = do
    chain ← lift (known_chain req.chain)
    lift (map_err adapter (validate_repay_request eth req))
    smart_wallet_address ← wallet_address api_key_id req.agent_id chain
    resolved_req ← resolve_repay_amount hex eth provider_for_chain chain req smart_wallet_address
    execution_req ← lift (map_err adapter (compile_repay hex eth resolved_req smart_wallet_address))
    raise_as platform (services.handle_simulate api_key_id execution_req)

  unfoldable pub handle_borrow_simulate :
      ℕ → AaveBorrowRequest → Action W AaveError ExecutionResponse
  handle_borrow_simulate api_key_id req = do
    chain ← lift (known_chain req.chain)
    lift (map_err adapter (validate_borrow_request eth req))
    smart_wallet_address ← wallet_address api_key_id req.agent_id chain
    resolved_req ← guard_borrow_health hex eth provider_for_chain chain req smart_wallet_address
    execution_req ←
        lift (map_err adapter (compile_borrow hex eth resolved_req smart_wallet_address))
    raise_as platform (services.handle_simulate api_key_id execution_req)

  unfoldable pub handle_position : ℕ → AavePositionQuery → Action W AaveError AavePositionResponse
  handle_position api_key_id query = do
    lift (map_err adapter (validate_position_query query))
    chain ← lift (known_chain query.chain)
    lift (or_err (provider_for_chain chain) no_provider)
    smart_wallet_address ← wallet_address api_key_id query.agent_id chain
    pool ← lift (pool_addr hex eth provider_for_chain)
    call_decoded hex eth provider_for_chain chain pool
        (encode_get_user_account_data hex eth smart_wallet_address)
        (λ raw. decode_user_account_data eth raw query.agent_id query.chain smart_wallet_address)
