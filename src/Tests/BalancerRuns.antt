-- ===== src/Tests/BalancerRuns.antt =====
-- Runs of the service of Balancer V3, against a node that answers from a list.
use agent_execution_platform.Prelude.{
  ℕ, ◌≡◌, ◌↔◌, refl, true, none, some, List, [], ◌∷◌, ◌++◌, length,
}
use agent_execution_platform.Prelude.Text.{Text, text, trim, trim_start, is_whitespace}
use agent_execution_platform.Prelude.Results.{ok}
use agent_execution_platform.Prelude.Actions.{Action, pure, raise}
use agent_execution_platform.Types.{ethereum, ExecutionRequest}
use agent_execution_platform.Protocols.Platform.{Platform}
use agent_execution_platform.Protocols.Balancer.{
  BalancerSwapRequest, BalancerError, exact_in, exact_out, balancer_v3_sepolia_router,
  balancer_v3_sepolia_permit2,
}
use agent_execution_platform.Protocols.Balancer.Limits.{
  validate_explicit_limit, limit_from_quote, limit_for, resolve_deadline,
}
use agent_execution_platform.Protocols.Balancer.Checks.{
  parse_address, parse_positive_u256, validate_swap_request, validate_chain,
  validate_permit2_amount, validate_deadline, amount, explicit_limit,
}
use agent_execution_platform.Protocols.Balancer.Compile.{
  swap_with_resolved_limit, encode_permit2_approve, encode_swap, swap_calls, compile_swap,
}
use agent_execution_platform.Protocols.Balancer.Pools.{
  decode_bool, decode_u256, decode_u256_array, decode_pool_token_info, encode_query_swap,
  parse_calldata,
}
use agent_execution_platform.Protocols.Balancer.Quotes.{
  validate_pool_for_swap, load_pool_state, call_raw, quote_swap,
}
use agent_execution_platform.Protocols.Calldata.{encode_call, selector}
use agent_execution_platform.Protocols.Balancer.Best.{IsBest}
use agent_execution_platform.Protocols.Balancer.Selection.{
  choose, choose_best, quote_candidate, select_best_pool, select_best_pool-IsBest, quotes,
}
use agent_execution_platform.Protocols.Balancer.Service.{resolve_quoted, ResolvedSwap, resolve_swap}
use agent_execution_platform.Protocols.Balancer.Protected.{IsProtected, resolve_swap-IsProtected}
use agent_execution_platform.Crates.{address, uint}
use agent_execution_platform.Engine.{validate}
use agent_execution_platform.Protocols.Acceptance.{IsReady}
use agent_execution_platform.Protocols.Balancer.Accepted.{validate-compile_swap}
use agent_execution_platform.Tests.Nodes.{Replies, on_ethereum}
use agent_execution_platform.Tests.CrateFixtures.{
  parsed, addr, hex, u256, eth, big_endian, decode, encode, decode_one, decode_all,
}

abbrev addr_text : ℕ → Text
addr_text n = text "0x" ++ encode (addr n)

abbrev word : ℕ → List ℕ
word n = big_endian 32 n

-- A pool of the tokens 1 and 2 that is registered and running, and its quote.
abbrev pool_replies : ℕ → Replies
pool_replies quote =
    word 1
    ∷ (word 2 ++ word 1 ++ word 2 ++ word 0 ++ word 2 ++ word 50 ++ word 60 ++ word 0)
    ∷ (word 2 ++ word 50 ++ word 60)
    ∷ word 1
    ∷ word 0
    ∷ word 0
    ∷ word 30
    ∷ word quote
    ∷ []

abbrev platform_runs : Platform Replies
platform_runs = record {
  get_or_create = λ key agent. pure (record {
    id = 3;
    api_key_id = key;
    agent_id = agent;
    namespaced_id = agent;
    eoa_address = addr 8;
    smart_wallet_address = addr 9;
    signing_key_encrypted = [];
  });
  resolve_chain_smart_wallet_address = λ chain wallet. pure (addr 9);
  handle_execute = λ key req. raise (text "not asked");
  handle_simulate = λ key req. raise (text "not asked");
}

abbrev index : List ℕ → List ℕ → Action Replies BalancerError (List Text)
index token_in token_out = pure (addr_text 5 ∷ text "nonsense" ∷ addr_text 6 ∷ [])

abbrev swap : BalancerSwapRequest
swap = record {
  agent_id = text "agent-1";
  chain = text "Sepolia";
  pool = addr_text 5;
  token_in = addr_text 1;
  token_out = addr_text 2;
  swap_kind = exact_in;
  amount_raw = text "1000";
  limit_raw = none;
  slippage_bps = 100;
  deadline = none;
  strategy_id = none;
  callback_url = none;
}

-- One in a hundred of 990 is left aside, rounded down.
floor_limit : limit_from_quote exact_in 990 100 ≡ ok 980
unfolding limit_from_quote limit_for
floor_limit = refl

ceiling_limit : limit_from_quote exact_out 990 100 ≡ ok 1000
unfolding limit_from_quote limit_for
ceiling_limit = refl

abbrev resolved : ResolvedSwap
resolved = record {
  request = record swap {
    pool = addr_text 5;
    limit_raw = some (u256.to_string 980);
    deadline = some 2200;
  };
  smart_wallet_address = addr 9;
  pool = addr 5;
  quoted_amount = 990;
  limit = 980;
  deadline = 2200;
}

resolves :
    (resolve_swap hex eth on_ethereum platform_runs index (some 1000) 1 swap (pool_replies 990)).0
    ≡ ok resolved
unfolding resolve_swap resolve_quoted validate_swap_request validate_chain validate_permit2_amount
    validate_deadline explicit_limit validate_explicit_limit limit_from_quote limit_for
    resolve_deadline swap_with_resolved_limit validate_pool_for_swap load_pool_state call_raw
    quote_swap parse_address decode_bool decode_u256 decode_u256_array decode_pool_token_info
    encode_query_swap parse_calldata amount parse_positive_u256 encode_call encode decode big_endian
    decode_one decode_all trim trim_start is_whitespace
resolves = refl

resolve_swap-IsProtected_example :
    IsProtected hex eth on_ethereum platform_runs index (some 1000) swap resolved
resolve_swap-IsProtected_example =
    resolve_swap-IsProtected hex eth on_ethereum platform_runs index (some 1000) 1 swap
      (pool_replies 990) resolved resolves

abbrev two_pools : Replies
two_pools = pool_replies 990 ++ pool_replies 995

selects :
    (select_best_pool hex eth on_ethereum ethereum swap (addr 9) index two_pools).0
    ≡ ok (addr 6, 995, 2)
unfolding select_best_pool choose_best choose quote_candidate validate_pool_for_swap load_pool_state
    call_raw quote_swap parse_address decode_bool decode_u256 decode_u256_array
    decode_pool_token_info encode_query_swap parse_calldata amount parse_positive_u256 encode_call
    encode decode big_endian decode_one decode_all trim trim_start is_whitespace
selects = refl

select_best_pool-IsBest_example :
    (candidates : List Text) × (w1 : Replies) × ((token_in token_out : List ℕ) × (index token_in
          token_out two_pools
        ≡ (ok candidates, w1)))
    × (IsBest exact_in
        (addr 6, 995)
        (quotes hex eth on_ethereum ethereum swap (addr 9) candidates w1))
    × (◌≡◌ {A = ℕ} 2 (length (quotes hex eth on_ethereum ethereum swap (addr 9) candidates w1)))
select_best_pool-IsBest_example =
    select_best_pool-IsBest hex eth on_ethereum ethereum swap (addr 9) index two_pools (addr 6) 995
      2 selects

-- A swap of 1,000 for at least 980, before the second 2,200.
abbrev ready_swap : BalancerSwapRequest
ready_swap = record swap {
  chain = text "ethereum";
  limit_raw = some (text "980");
  deadline = some 2200;
}

abbrev router : List ℕ
router = parsed balancer_v3_sepolia_router

abbrev permit2 : List ℕ
permit2 = parsed balancer_v3_sepolia_permit2

abbrev approve : ℕ → Text
approve amount =
    encode_call hex eth (selector hex eth (text "approve(address,address,uint160,uint48)"))
      (address (addr 1) ∷ address router ∷ uint amount ∷ uint 2200 ∷ [])

abbrev compiled : ExecutionRequest
compiled = record {
  agent_id = text "agent-1";
  chain = text "ethereum";
  target_contract = [];
  calldata = [];
  value = text "0";
  strategy_id = some (text "balancer-v3-sepolia-swap-exact-in");
  batch_calls = some (
      swap_calls hex eth (addr 1) permit2 router 1000 (approve 1000)
        (encode_swap hex eth exact_in (addr 5) (addr 1) (addr 2) 1000 980 2200) (approve 0));
  callback_url = none;
}

compiles : compile_swap hex eth ready_swap ≡ ok compiled
unfolding compile_swap validate_swap_request validate_chain validate_permit2_amount
    validate_deadline parse_address parse_positive_u256 encode_permit2_approve encode decode
    big_endian trim trim_start is_whitespace
compiles = refl

validate-compile_swap_example :
    (validate hex (λ c. true) compiled ≡ ok ethereum)
    ↔ IsReady (λ c. true) (text "ethereum") (text "agent-1") ethereum
validate-compile_swap_example =
    validate-compile_swap hex eth (λ c. true) ready_swap compiled ethereum compiles
