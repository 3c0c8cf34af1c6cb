-- ===== src/Protocols/Balancer/Compile.antt =====
-- src/protocols/balancer_v3/adapter.rs: the compilation of a swap into a batch of calls. The tokens are
-- approved for the swap and the approvals are taken back after it.
use agent_execution_platform.Prelude.{ℕ, false, some, List, [], ◌∷◌, ltb}
use agent_execution_platform.Prelude.Text.{Text, text, trim, is_empty}
use agent_execution_platform.Prelude.Results.{Result, ok, or_err, fail_if, ◌>>=◌, ◌>>◌}
use agent_execution_platform.Types.{BatchCall, ExecutionRequest}
use agent_execution_platform.Crates.{Hex, U256, Ethers, address, uint, boolean, dynamic_bytes}
use agent_execution_platform.Protocols.Calldata.{
  or_else, call_to, selector, encode_call, encode_erc20_approve,
}
use agent_execution_platform.Protocols.Balancer.{
  BalancerSwapKind, exact_in, exact_out, BalancerSwapRequest, BalancerError, pool_not_resolved,
  limit_not_resolved, deadline_not_resolved, exceeds_uint160, deadline_not_uint48, bad_constant,
  uint160_max, uint48_max, balancer_v3_sepolia_router, balancer_v3_sepolia_permit2,
}
use agent_execution_platform.Protocols.Balancer.Checks.{
  validate_swap_request, parse_address, parse_positive_u256, amount,
}

abbrev kind_label : BalancerSwapKind → Text
kind_label exact_in = text "balancer-v3-sepolia-swap-exact-in"
kind_label exact_out = text "balancer-v3-sepolia-swap-exact-out"

-- The most that a swap takes from the wallet.
abbrev pub max_input : BalancerSwapKind → ℕ → ℕ → ℕ
max_input exact_in amount limit = amount
max_input exact_out amount limit = limit

module _ (hex : Hex) {u256 : U256} (eth : Ethers u256) where
  unfoldable pub swap_with_resolved_limit :
      BalancerSwapRequest → List ℕ → ℕ → ℕ → BalancerSwapRequest
  swap_with_resolved_limit req pool limit deadline = record req {
    pool = eth.print_address pool;
    limit_raw = some (u256.to_string limit);
    deadline = some deadline;
  }

  abbrev pub swap_signature : BalancerSwapKind → Text
  swap_signature exact_in =
      text "swapSingleTokenExactIn(address,address,address,uint256,uint256,uint256,bool,bytes)"
  swap_signature exact_out =
      text "swapSingleTokenExactOut(address,address,address,uint256,uint256,uint256,bool,bytes)"

  -- `encode_swap_exact_in` and `encode_swap_exact_out`.
  unfoldable pub encode_swap : BalancerSwapKind → List ℕ → List ℕ → List ℕ → ℕ → ℕ → ℕ → Text
  encode_swap kind pool token_in token_out amount limit deadline =
      encode_call hex eth (selector hex eth (swap_signature kind)) (
        address pool
        ∷ address token_in
        ∷ address token_out
        ∷ uint amount
        ∷ uint limit
        ∷ uint deadline
        ∷ boolean false
        ∷ dynamic_bytes []
        ∷ [])

  unfoldable pub encode_permit2_approve : List ℕ → List ℕ → ℕ → ℕ → Result BalancerError Text
  encode_permit2_approve token spender amount expiration = do
    fail_if (ltb uint160_max amount) exceeds_uint160
    fail_if (ltb uint48_max expiration) deadline_not_uint48
    ok (
        encode_call hex eth (selector hex eth (text "approve(address,address,uint160,uint48)"))
          (address token ∷ address spender ∷ uint amount ∷ uint expiration ∷ []))

  -- The batch: the approvals, the swap, and the approvals taken back.
  unfoldable pub swap_calls : List ℕ → List ℕ → List ℕ → ℕ → Text → Text → Text → List BatchCall
  swap_calls token_in permit2 router most approval swap revocation =
      call_to eth token_in (encode_erc20_approve hex eth permit2 0)
      ∷ call_to eth token_in (encode_erc20_approve hex eth permit2 most)
      ∷ call_to eth permit2 approval
      ∷ call_to eth router swap
      ∷ call_to eth permit2 revocation
      ∷ call_to eth token_in (encode_erc20_approve hex eth permit2 0)
      ∷ []

  unfoldable pub compile_swap : BalancerSwapRequest → Result BalancerError ExecutionRequest
  compile_swap req = do
    validate_swap_request eth req
    fail_if (is_empty (trim req.pool)) pool_not_resolved
    pool ← parse_address eth req.pool (text "pool")
    token_in ← parse_address eth req.token_in (text "token_in")
    token_out ← parse_address eth req.token_out (text "token_out")
    amount ← parse_positive_u256 eth req.amount_raw (text "amount_raw")
    limit_raw ← or_err req.limit_raw limit_not_resolved
    limit ← parse_positive_u256 eth limit_raw (text "limit_raw")
    deadline ← or_err req.deadline deadline_not_resolved
    let most = max_input req.swap_kind amount limit
    fail_if (ltb uint160_max most) exceeds_uint160
    router ← or_err (eth.parse_address balancer_v3_sepolia_router) bad_constant
    permit2 ← or_err (eth.parse_address balancer_v3_sepolia_permit2) bad_constant
    approval ← encode_permit2_approve token_in router most deadline
    revocation ← encode_permit2_approve token_in router 0 deadline
    ok (record {
      agent_id = req.agent_id;
      chain = req.chain;
      target_contract = [];
      calldata = [];
      value = text "0";
      strategy_id = or_else req.strategy_id (kind_label req.swap_kind);
      batch_calls = some (
          swap_calls token_in permit2 router most approval
            (encode_swap req.swap_kind pool token_in token_out amount limit deadline) revocation);
      callback_url = req.callback_url;
    })
