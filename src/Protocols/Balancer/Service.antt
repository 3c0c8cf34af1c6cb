-- ===== src/Protocols/Balancer/Service.antt =====
-- src/protocols/balancer_v3/service.rs: the resolution of a swap and its handlers. The index of the
-- pools and the clock are arguments.
use agent_execution_platform.Prelude.{ℕ, Bool, true, false, Option, none, some, List, ◌++◌}
use agent_execution_platform.Prelude.Text.{Text, text, trim, is_empty}
use agent_execution_platform.Prelude.Results.{Result, ok, err}
use agent_execution_platform.Prelude.Actions.{Action, pure, lift, raise_as, ◌>>=◌, ◌>>◌}
use agent_execution_platform.Types.{Chain, ethereum, ExecutionResponse}
use agent_execution_platform.Crates.{Hex, U256, Ethers, Provider}
use agent_execution_platform.Protocols.Platform.{Platform}
use agent_execution_platform.Protocols.Balancer.{
  BalancerSwapRequest, BalancerSwapKind, exact_in, exact_out, BalancerError, platform,
}
use agent_execution_platform.Protocols.Balancer.Checks.{
  validate_chain, validate_swap_request, validate_permit2_amount, parse_address, amount,
  explicit_limit,
}
use agent_execution_platform.Protocols.Balancer.Limits.{
  validate_explicit_limit, limit_from_quote, resolve_deadline,
}
use agent_execution_platform.Protocols.Balancer.Compile.{swap_with_resolved_limit, compile_swap}
use agent_execution_platform.Protocols.Balancer.Quotes.{validate_pool_for_swap, quote_swap}
use agent_execution_platform.Protocols.Balancer.Selection.{select_best_pool}

-- `struct ResolvedSwap`, without the counts of the candidates.
pub record ResolvedSwap : Type 0 where
  pub request : BalancerSwapRequest
  pub smart_wallet_address : List ℕ
  pub pool : List ℕ
  pub quoted_amount : ℕ
  pub limit : ℕ
  pub deadline : ℕ

-- The chain that the texts of the adapter stand for.
abbrev pub parse_chain : Text → Result BalancerError Chain
parse_chain chain = elim (validate_chain chain) [ ok t ↦ ok ethereum | err e ↦ err e ]

module _ {W : Type 0} (hex : Hex) {u256 : U256} (eth : Ethers u256)
    (provider_for_chain : Chain → Option (Provider W)) (services : Platform W)
    (discover_pair_pools : List ℕ → List ℕ → Action W BalancerError (List Text))
    (now : Option ℕ) where
  abbrev pub explicit_limit_checked : BalancerSwapRequest → ℕ → ℕ → Result BalancerError ℕ
  explicit_limit_checked req quote limit =
      elim (validate_explicit_limit req.swap_kind quote limit) [ ok t ↦ ok limit | err e ↦ err e ]

  abbrev pub limit_of : BalancerSwapRequest → ℕ → Option ℕ → Result BalancerError ℕ
  limit_of req quote (some limit) = explicit_limit_checked req quote limit
  limit_of req quote none = limit_from_quote req.swap_kind quote req.slippage_bps

  -- The pool of a swap and its quote: the one that was asked for, or the best of the index.
  abbrev pub quoted_pool :
      Bool → Chain → BalancerSwapRequest → List ℕ → Action W BalancerError (List ℕ × ℕ)
  quoted_pool true chain req sender = do
    (pool, quote, quoted) ←
        select_best_pool hex eth provider_for_chain chain req sender discover_pair_pools
    pure (pool, quote)
  quoted_pool false chain req sender = do
    pool ← lift (parse_address eth req.pool (text "pool"))
    validate_pool_for_swap hex eth provider_for_chain chain req
    quote ← quote_swap hex eth provider_for_chain chain req sender
    pure (pool, quote)

  -- The most that the swap takes from the wallet.
  abbrev pub most_of : BalancerSwapRequest → BalancerSwapKind → ℕ → Result BalancerError ℕ
  most_of req exact_in limit = amount eth req
  most_of req exact_out limit = ok limit

  unfoldable pub resolve_quoted :
      BalancerSwapRequest → List ℕ → List ℕ → ℕ → Action W BalancerError ResolvedSwap
  resolve_quoted req sender pool quote = do
    explicit ← lift (explicit_limit eth req)
    limit ← lift (limit_of req quote explicit)
    most ← lift (most_of req req.swap_kind limit)
    lift (validate_permit2_amount most)
    deadline ← lift (resolve_deadline now req.deadline)
    pure (record {
      request = swap_with_resolved_limit hex eth req pool limit deadline;
      smart_wallet_address = sender;
      pool = pool;
      quoted_amount = quote;
      limit = limit;
      deadline = deadline;
    })

  unfoldable pub resolve_swap : ℕ → BalancerSwapRequest → Action W BalancerError ResolvedSwap
  resolve_swap api_key_id req = do
    lift (validate_swap_request eth req)
    chain ← lift (parse_chain req.chain)
    wallet ← raise_as platform (services.get_or_create api_key_id req.agent_id)
    sender ← raise_as platform (services.resolve_chain_smart_wallet_address chain wallet)
    (pool, quote) ← quoted_pool (is_empty (trim req.pool)) chain req sender
    resolve_quoted req sender pool quote

  unfoldable pub handle_swap : ℕ → BalancerSwapRequest → Action W BalancerError ExecutionResponse
  handle_swap api_key_id req = do
    resolved ← resolve_swap api_key_id req
    execution_req ← lift (compile_swap hex eth resolved.request)
    raise_as (λ e. platform (text "Balancer V3 swap on Ethereum Sepolia failed: " ++ e))
        (services.handle_execute api_key_id execution_req)

  unfoldable pub handle_swap_simulate :
      ℕ → BalancerSwapRequest → Action W BalancerError ExecutionResponse
  handle_swap_simulate api_key_id req = do
    resolved ← resolve_swap api_key_id req
    execution_req ← lift (compile_swap hex eth resolved.request)
    raise_as platform (services.handle_simulate api_key_id execution_req)
