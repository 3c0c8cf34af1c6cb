-- ===== src/Tests/MorphoCalls.antt =====
-- Runs of the compilation of an action on a market of Morpho.
use agent_execution_platform.Prelude.{
  ℕ, ◌≡◌, ◌↔◌, refl, true, Bool, none, some, List, [], ◌∷◌, ◌++◌, replicate, arith,
}
use agent_execution_platform.Prelude.Text.{text, trim, trim_start, is_whitespace}
use agent_execution_platform.Prelude.Results.{ok, is_ok}
use agent_execution_platform.Types.{base, from_str_loose, ExecutionRequest}
use agent_execution_platform.Crates.{address, uint, dynamic_bytes}
use agent_execution_platform.Engine.{validate}
use agent_execution_platform.Protocols.Morpho.{
  MorphoActionRequest, supply, repay, slug, MorphoMarketParams, assets,
}
use agent_execution_platform.Protocols.Morpho.Compile.{
  morpho_address, validate_chain, validate_agent_and_chain, validate_amount_fields, split_amount,
  get_bytes, market_suffix, parse_market_id, validate_action_request, approval_batch,
  encode_morpho_call, plan_action, target_of, calldata_of, batch_of, compile_action,
}
use agent_execution_platform.Protocols.Morpho.Accepted.{OfAddresses, validate-compile_action}
use agent_execution_platform.Protocols.Morpho.Requests.{IsRequest, Suits, compile_action_iff}
use agent_execution_platform.Tests.CrateFixtures.{parsed, addr, hex, eth, encode, decode}

abbrev market : MorphoMarketParams
market = record {
  loan_token = addr 1;
  collateral_token = addr 2;
  oracle = addr 3;
  irm = addr 4;
  lltv = 860;
}

abbrev req : MorphoActionRequest
req = record {
  agent_id = text "agent-1";
  chain = text "Base";
  market_id = text "0x" ++ encode (replicate 31 0 ++ (7 ∷ []));
  amount = none;
  amount_raw = some (text "25");
  min_health_factor = none;
  strategy_id = none;
  callback_url = none;
}

abbrev morpho : List ℕ
morpho = parsed morpho_address

abbrev repaid : ExecutionRequest
repaid = record {
  agent_id = text "agent-1";
  chain = text "Base";
  target_contract = [];
  calldata = [];
  value = text "0";
  strategy_id = some (text "morpho-blue-base-sepolia-repay-00000000");
  batch_calls = some (
      approval_batch hex eth (addr 1) morpho 25 (
        encode_morpho_call hex eth
          (text "repay((address,address,address,address,uint256),uint256,uint256,address,bytes)")
          market (uint 25 ∷ uint 0 ∷ address (addr 9) ∷ dynamic_bytes [] ∷ [])));
  callback_url = none;
}

compiles : compile_action hex eth req repay market (addr 9) (assets 25) ≡ ok repaid
unfolding compile_action validate_action_request validate_agent_and_chain validate_chain
    parse_market_id validate_amount_fields plan_action split_amount target_of calldata_of batch_of
    slug market_suffix get_bytes encode decode trim trim_start is_whitespace
compiles = refl

market-OfAddresses : OfAddresses market
market-OfAddresses = record {
  loan = (refl, omega arith);
  collateral = (refl, omega arith);
  oracle = (refl, omega arith);
  irm = (refl, omega arith);
}

validate-compile_action_example :
    (validate hex (λ c. true) repaid ≡ ok base)
    ↔ ((from_str_loose (text "Base") ≡ some base) × (◌≡◌ {A = Bool} true true))
validate-compile_action_example =
    validate-compile_action hex eth market (addr 9) (λ c. true) req repay (assets 25) repaid base
      market-OfAddresses (refl, omega arith) compiles

compile_action_iff_example :
    (is_ok (compile_action hex eth req supply market (addr 9) (assets 25)) ≡ true)
    ↔ (IsRequest hex eth req × Suits supply (assets 25))
compile_action_iff_example = compile_action_iff hex eth req supply market (addr 9) (assets 25)
