-- ===== src/Protocols/AaveV3/Compile.antt =====
-- src/protocols/aave_v3/adapter.rs: the compilation of requests into calls of the pool.
use agent_execution_platform.Prelude.{ℕ, true, false, none, some, List, [], ◌∷◌, ◌++◌, ◌==◌}
use agent_execution_platform.Prelude.Text.{Text, text}
use agent_execution_platform.Prelude.Results.{Result, ok, or_err, fail_if, ◌>>=◌, ◌>>◌}
use agent_execution_platform.Types.{ExecutionRequest}
use agent_execution_platform.Crates.{Hex, U256, Ethers, address, uint}
use agent_execution_platform.Protocols.Amounts.{
  ProtocolError, amount_zero, bad_constant, panicked, resolve_amount, parse_optional_address,
}
use agent_execution_platform.Protocols.Calldata.{
  or_else, call_to, selector, encode_call, encode_erc20_approve,
}
use agent_execution_platform.Protocols.AaveV3.{
  sepolia_assets, get, symbol_of, aave_v3_sepolia_pool, variable_rate_mode,
}
use agent_execution_platform.Protocols.AaveV3.Requests.{
  AaveSupplyRequest, AaveWithdrawRequest, AaveRepayRequest, AaveBorrowRequest,
}
use agent_execution_platform.Protocols.AaveV3.Checks.{
  unwrap_or, validate_supply_request, validate_withdraw_request, validate_repay_request,
  validate_borrow_request,
}

module _ (hex : Hex) {u256 : U256} (eth : Ethers u256) where
  unfoldable pub encode_aave_supply : List ℕ → ℕ → List ℕ → ℕ → Text
  encode_aave_supply asset amount on_behalf_of referral_code =
      encode_call hex eth (selector hex eth (text "supply(address,uint256,address,uint16)"))
        (address asset ∷ uint amount ∷ address on_behalf_of ∷ uint referral_code ∷ [])

  unfoldable pub encode_aave_withdraw : List ℕ → ℕ → List ℕ → Text
  encode_aave_withdraw asset amount to =
      encode_call hex eth (selector hex eth (text "withdraw(address,uint256,address)"))
        (address asset ∷ uint amount ∷ address to ∷ [])

  unfoldable pub encode_aave_repay : List ℕ → ℕ → ℕ → List ℕ → Text
  encode_aave_repay asset amount interest_rate_mode on_behalf_of =
      encode_call hex eth (selector hex eth (text "repay(address,uint256,uint256,address)"))
        (address asset ∷ uint amount ∷ uint interest_rate_mode ∷ address on_behalf_of ∷ [])

  unfoldable pub encode_aave_borrow : List ℕ → ℕ → ℕ → ℕ → List ℕ → Text
  encode_aave_borrow asset amount interest_rate_mode referral_code on_behalf_of =
      encode_call hex eth (selector hex eth (text "borrow(address,uint256,uint256,uint16,address)"))
        (address asset
          ∷ uint amount
          ∷ uint interest_rate_mode
          ∷ uint referral_code
          ∷ address on_behalf_of
          ∷ [])

  unfoldable pub compile_supply : AaveSupplyRequest → List ℕ → Result ProtocolError ExecutionRequest
  compile_supply req smart_wallet_address = do
    validate_supply_request eth req
    let symbol = symbol_of req.asset
    asset ← or_err (get sepolia_assets symbol) panicked
    amount ← resolve_amount u256 req.amount req.amount_raw asset.decimals false
    fail_if (amount == 0) amount_zero
    token ← or_err (eth.parse_address asset.underlying) bad_constant
    pool ← or_err (eth.parse_address aave_v3_sepolia_pool) bad_constant
    let referral_code = unwrap_or req.referral_code 0
    ok (record {
      agent_id = req.agent_id;
      chain = req.chain;
      target_contract = text "";
      calldata = text "";
      batch_calls = some (
          call_to eth token (encode_erc20_approve hex eth pool amount)
          ∷ call_to eth pool (encode_aave_supply token amount smart_wallet_address referral_code)
          ∷ []);
      value = text "0";
      strategy_id = or_else req.strategy_id (text "aave-v3-sepolia-supply-" ++ symbol);
      callback_url = req.callback_url;
    })

  unfoldable pub compile_withdraw :
      AaveWithdrawRequest → List ℕ → Result ProtocolError ExecutionRequest
  compile_withdraw req smart_wallet_address = do
    validate_withdraw_request eth req
    let symbol = symbol_of req.asset
    asset ← or_err (get sepolia_assets symbol) panicked
    amount ← resolve_amount u256 req.amount req.amount_raw asset.decimals true
    fail_if (amount == 0) amount_zero
    token ← or_err (eth.parse_address asset.underlying) bad_constant
    pool ← or_err (eth.parse_address aave_v3_sepolia_pool) bad_constant
    recipient ← parse_optional_address eth req.to smart_wallet_address (text "to")
    ok (record {
      agent_id = req.agent_id;
      chain = req.chain;
      target_contract = eth.print_address pool;
      calldata = encode_aave_withdraw token amount recipient;
      batch_calls = none;
      value = text "0";
      strategy_id = or_else req.strategy_id (text "aave-v3-sepolia-withdraw-" ++ symbol);
      callback_url = req.callback_url;
    })

  unfoldable pub compile_repay : AaveRepayRequest → List ℕ → Result ProtocolError ExecutionRequest
  compile_repay req smart_wallet_address = do
    validate_repay_request eth req
    let symbol = symbol_of req.asset
    asset ← or_err (get sepolia_assets symbol) panicked
    amount ← resolve_amount u256 req.amount req.amount_raw asset.decimals false
    fail_if (amount == 0) amount_zero
    token ← or_err (eth.parse_address asset.underlying) bad_constant
    pool ← or_err (eth.parse_address aave_v3_sepolia_pool) bad_constant
    let rate_mode = unwrap_or req.interest_rate_mode variable_rate_mode
    on_behalf_of ←
        parse_optional_address eth req.on_behalf_of smart_wallet_address (text "on_behalf_of")
    ok (record {
      agent_id = req.agent_id;
      chain = req.chain;
      target_contract = text "";
      calldata = text "";
      batch_calls = some (
          call_to eth token (encode_erc20_approve hex eth pool amount)
          ∷ call_to eth pool (encode_aave_repay token amount rate_mode on_behalf_of)
          ∷ []);
      value = text "0";
      strategy_id = or_else req.strategy_id (text "aave-v3-sepolia-repay-" ++ symbol);
      callback_url = req.callback_url;
    })

  unfoldable pub compile_borrow : AaveBorrowRequest → List ℕ → Result ProtocolError ExecutionRequest
  compile_borrow req smart_wallet_address = do
    validate_borrow_request eth req
    let symbol = symbol_of req.asset
    asset ← or_err (get sepolia_assets symbol) panicked
    amount ← resolve_amount u256 req.amount req.amount_raw asset.decimals false
    fail_if (amount == 0) amount_zero
    token ← or_err (eth.parse_address asset.underlying) bad_constant
    pool ← or_err (eth.parse_address aave_v3_sepolia_pool) bad_constant
    let rate_mode = unwrap_or req.interest_rate_mode variable_rate_mode
    let referral_code = unwrap_or req.referral_code 0
    on_behalf_of ←
        parse_optional_address eth req.on_behalf_of smart_wallet_address (text "on_behalf_of")
    ok (record {
      agent_id = req.agent_id;
      chain = req.chain;
      target_contract = eth.print_address pool;
      calldata = encode_aave_borrow token amount rate_mode referral_code on_behalf_of;
      batch_calls = none;
      value = text "0";
      strategy_id = or_else req.strategy_id (text "aave-v3-sepolia-borrow-" ++ symbol);
      callback_url = req.callback_url;
    })
