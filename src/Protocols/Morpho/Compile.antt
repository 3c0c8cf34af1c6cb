-- ===== src/Protocols/Morpho/Compile.antt =====
-- src/protocols/morpho/adapter.rs: the validation of a request for an action on a market, and the
-- action as a call of Morpho Blue or as a batch around it.
use agent_execution_platform.Prelude.{
  ℕ, ◌-◌, ◌||◌, not, Option, none, some, List, [], ◌∷◌, ◌++◌, ltb, ◌==◌, if◌then◌else◌, map,
}
use agent_execution_platform.Prelude.Text.{
  Text, text, text_eq, is_empty, byte_len, utf8_len, starts_with, strip_0x, trim, ascii_lower,
}
use agent_execution_platform.Prelude.Results.{Result, ok, err, or_err, fail_if, ◌>>=◌, ◌>>◌}
use agent_execution_platform.Types.{BatchCall, ExecutionRequest}
use agent_execution_platform.Crates.{
  Hex, U256, Ethers, Token, address, uint, dynamic_bytes, tuple, tuple_of,
}
use agent_execution_platform.Protocols.Amounts.{u256_max}
use agent_execution_platform.Protocols.Calldata.{
  or_else, call_to, selector, encode_call, encode_erc20_approve,
}
use agent_execution_platform.Protocols.Morpho.{
  MorphoActionRequest, MorphoAction, supply, withdraw, supply_collateral, withdraw_collateral,
  borrow, repay, slug, MorphoMarketParams, ResolvedAmount, assets, shares, MorphoError,
  agent_id_required, agent_id_too_long, wrong_chain, invalid_market_id, not_one_amount, no_amount,
  empty_amount, amount_zero, shares_not_supported, panicked,
}

abbrev pub morpho_address : Text
morpho_address = text "0xBBBBBbbBBb9cC5e90e3b3Af64bdAF62C37EEFFCb"

unfoldable pub validate_chain : Text → Result MorphoError (Unit {0})
validate_chain chain =
    fail_if (not (text_eq (map ascii_lower (trim chain)) (text "base"))) wrong_chain

unfoldable pub validate_agent_and_chain : Text → Text → Result MorphoError (Unit {0})
validate_agent_and_chain agent_id chain = do
  fail_if (is_empty (trim agent_id)) agent_id_required
  fail_if (ltb 256 (byte_len agent_id)) agent_id_too_long
  validate_chain chain

unfoldable pub validate_amount_fields : Option Text → Option Text → Result MorphoError (Unit {0})
validate_amount_fields (some a) (some b) = err not_one_amount
validate_amount_fields none none = err no_amount
validate_amount_fields (some a) none = fail_if (is_empty (trim a)) empty_amount
validate_amount_fields none (some b) = fail_if (is_empty (trim b)) empty_amount

unfoldable pub require_assets : ResolvedAmount → MorphoAction → Result MorphoError ℕ
require_assets (assets n) action = if n == 0 then err amount_zero else ok n
require_assets (shares n) action = err (shares_not_supported action)

unfoldable pub split_amount : ResolvedAmount → ℕ × ℕ
split_amount (assets n) = (n, 0)
split_amount (shares n) = (0, n)

unfoldable pub market_param_tokens : MorphoMarketParams → List Token
market_param_tokens params =
    address params.loan_token
    ∷ address params.collateral_token
    ∷ address params.oracle
    ∷ address params.irm
    ∷ uint params.lltv
    ∷ []

-- `str::get(..n)`: the characters of the first n bytes, if a character ends there.
unfoldable pub get_bytes : ℕ → Text → Option Text
get_bytes n [] = if n == 0 then some [] else none
get_bytes n (c ∷ s) =
    let rest = get_bytes (n - utf8_len c) s in
    if n == 0
    then some []
    else if ltb n (utf8_len c)
    then none
    else (elim rest [ some t ↦ some (c ∷ t) | none ↦ none ])

unfoldable pub market_suffix : Text → Text
market_suffix market_id = elim (get_bytes 8 (strip_0x market_id)) [
  | some t ↦ t
  | none ↦ text "market"
]

-- The calls of an action: one call of Morpho, or a batch.
pub data Planned : Type 0 where
  single : Text → Planned
  batch : List BatchCall → Planned

module _ (hex : Hex) {u256 : U256} (eth : Ethers u256) where
  unfoldable pub parse_market_id : Text → Result MorphoError (List ℕ)
  parse_market_id raw = do
    fail_if (not (starts_with (text "0x") (trim raw)) || not (byte_len (trim raw) == 66))
        invalid_market_id
    or_err (eth.parse_h256 (trim raw)) invalid_market_id

  unfoldable pub validate_action_request : MorphoActionRequest → Result MorphoError (Unit {0})
  validate_action_request req = do
    validate_agent_and_chain req.agent_id req.chain
    id ← parse_market_id req.market_id
    validate_amount_fields req.amount req.amount_raw

  unfoldable pub approval_batch : List ℕ → List ℕ → ℕ → Text → List BatchCall
  approval_batch token spender allowance protocol_calldata =
      call_to eth token (encode_erc20_approve hex eth spender 0)
      ∷ call_to eth token (encode_erc20_approve hex eth spender allowance)
      ∷ call_to eth spender protocol_calldata
      ∷ call_to eth token (encode_erc20_approve hex eth spender 0)
      ∷ []

  -- A call whose first argument is the parameters of the market.
  unfoldable pub encode_morpho_call : Text → MorphoMarketParams → List Token → Text
  encode_morpho_call signature params tokens =
      encode_call hex eth (selector hex eth signature)
        (tuple (tuple_of (market_param_tokens params)) ∷ tokens)

  unfoldable pub plan_action :
      MorphoMarketParams
      → List ℕ
      → List ℕ
      → ResolvedAmount
      → MorphoAction
      → Result MorphoError Planned
  plan_action params morpho wallet amount supply = do
    n ← require_assets amount supply
    ok (
        batch (
          approval_batch params.loan_token morpho n (
            encode_morpho_call
              (text
                "supply((address,address,address,address,uint256),uint256,uint256,address,bytes)")
              params (uint n ∷ uint 0 ∷ address wallet ∷ dynamic_bytes [] ∷ []))))
  plan_action params morpho wallet amount withdraw =
      let (n, s) = split_amount amount in
      ok (
        single (
          encode_morpho_call
            (text
              "withdraw((address,address,address,address,uint256),uint256,uint256,address,address)")
            params (uint n ∷ uint s ∷ address wallet ∷ address wallet ∷ [])))
  plan_action params morpho wallet amount supply_collateral = do
    n ← require_assets amount supply_collateral
    ok (
        batch (
          approval_batch params.collateral_token morpho n (
            encode_morpho_call
              (text
                "supplyCollateral((address,address,address,address,uint256),uint256,address,bytes)")
              params (uint n ∷ address wallet ∷ dynamic_bytes [] ∷ []))))
  plan_action params morpho wallet amount withdraw_collateral = do
    n ← require_assets amount withdraw_collateral
    ok (
        single (
          encode_morpho_call
            (text
              "withdrawCollateral((address,address,address,address,uint256),uint256,address,address)")
            params (uint n ∷ address wallet ∷ address wallet ∷ [])))
  plan_action params morpho wallet amount borrow = do
    n ← require_assets amount borrow
    ok (
        single (
          encode_morpho_call
            (text
              "borrow((address,address,address,address,uint256),uint256,uint256,address,address)")
            params (uint n ∷ uint 0 ∷ address wallet ∷ address wallet ∷ [])))
  plan_action params morpho wallet amount repay =
      let (n, s) = split_amount amount in
      let approval = if s == 0 then n else u256_max in
      ok (
        batch (
          approval_batch params.loan_token morpho approval (
            encode_morpho_call
              (text
                "repay((address,address,address,address,uint256),uint256,uint256,address,bytes)")
              params (uint n ∷ uint s ∷ address wallet ∷ dynamic_bytes [] ∷ []))))

  unfoldable pub target_of : List ℕ → Planned → Text
  target_of morpho (single calldata) = eth.print_address morpho
  target_of morpho (batch calls) = []

  unfoldable pub calldata_of : Planned → Text
  calldata_of (single calldata) = calldata
  calldata_of (batch calls) = []

  unfoldable pub batch_of : Planned → Option (List BatchCall)
  batch_of (single calldata) = none
  batch_of (batch calls) = some calls

  unfoldable pub compile_action :
      MorphoActionRequest
      → MorphoAction
      → MorphoMarketParams
      → List ℕ
      → ResolvedAmount
      → Result MorphoError ExecutionRequest
  compile_action req action params wallet amount = do
    validate_action_request req
    morpho ← or_err (eth.parse_address morpho_address) panicked
    planned ← plan_action params morpho wallet amount action
    ok (record {
      agent_id = req.agent_id;
      chain = req.chain;
      target_contract = target_of morpho planned;
      calldata = calldata_of planned;
      value = text "0";
      strategy_id = or_else req.strategy_id (
          text "morpho-blue-base-sepolia-"
          ++ (slug action ++ (text "-" ++ market_suffix req.market_id)));
      batch_calls = batch_of planned;
      callback_url = req.callback_url;
    })
