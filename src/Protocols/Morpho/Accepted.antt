-- ===== src/Protocols/Morpho/Accepted.antt =====
-- src/protocols/morpho/adapter.rs: a compiled action, before the engine.
use mathlib.Core.Path.{subst, sym}
use agent_execution_platform.Prelude.{
  ℕ, ◌≤◌, ◌≡◌, ◌↔◌, ap, true, false, Bool, some, List, [], ◌∷◌, All, ltb, arith,
}
use agent_execution_platform.Prelude.Text.{Text, is_empty, trim, byte_len}
use agent_execution_platform.Prelude.Results.{ok, or_err, bind_ok, fail_if_ok, ok_inj}
use agent_execution_platform.Types.{Chain, from_str_loose, ExecutionRequest}
use agent_execution_platform.Crates.{
  Hex, U256, Ethers, Token, IsAddress, OfBytes, address, uint, dynamic_bytes, tuple, tuple_of,
}
use agent_execution_platform.Engine.{validate}
use agent_execution_platform.Engine.Calls.{CallFits}
use agent_execution_platform.Engine.Validation.{CallsFit}
use agent_execution_platform.Protocols.Acceptance.{
  encode_call-CallFits, read-IsAddress, encode_erc20_approve-CallFits, BatchOk, Made, accepted_iff,
}
use agent_execution_platform.Protocols.Morpho.{
  MorphoActionRequest, MorphoAction, supply, withdraw, supply_collateral, withdraw_collateral,
  borrow, repay, MorphoMarketParams, ResolvedAmount, agent_id_required, agent_id_too_long, panicked,
}
use agent_execution_platform.Protocols.Morpho.Compile.{
  morpho_address, validate_agent_and_chain, require_assets, split_amount, market_param_tokens,
  Planned, single, batch, validate_action_request, approval_batch, encode_morpho_call, plan_action,
  target_of, calldata_of, batch_of, compile_action,
}

-- The addresses of a market have twenty bytes each, as the type of the code says.
pub record OfAddresses (params : MorphoMarketParams) : Type 0 where
  pub loan : IsAddress params.loan_token
  pub collateral : IsAddress params.collateral_token
  pub oracle : IsAddress params.oracle
  pub irm : IsAddress params.irm

module _ (hex : Hex) {u256 : U256} (eth : Ethers u256) where
  abbrev PlanFits : List ℕ → Planned → Type 0
  PlanFits morpho (single calldata) = CallFits hex (eth.print_address morpho) calldata
  PlanFits morpho (batch calls) = BatchOk hex calls

  encode_morpho_call-CallFits :
      (morpho : List ℕ) (signature : Text) (params : MorphoMarketParams) (tokens : List Token)
      → IsAddress morpho
      → OfAddresses params
      → All OfBytes tokens
      → CallFits hex (eth.print_address morpho) (encode_morpho_call hex eth signature params tokens)
  unfolding encode_morpho_call market_param_tokens OfBytes
  encode_morpho_call-CallFits morpho signature params tokens here p fit =
      encode_call-CallFits hex eth morpho signature
        (tuple (tuple_of (market_param_tokens params)) ∷ tokens) here
        ((p.loan, (p.collateral, (p.oracle, (p.irm, (tt, tt))))), fit)

  approval_batch_fits :
      (token spender : List ℕ) (allowance : ℕ) (calldata : Text)
      → IsAddress token
      → IsAddress spender
      → CallFits hex (eth.print_address spender) calldata
      → BatchOk hex (approval_batch hex eth token spender allowance calldata)
  unfolding approval_batch
  approval_batch_fits token spender allowance calldata t s fit =
      let reset = encode_erc20_approve-CallFits hex eth token spender 0 t s in
      let set = encode_erc20_approve-CallFits hex eth token spender allowance t s in
      (omega arith, omega arith, (reset, (set, (fit, (reset, tt)))))

  module _ (params : MorphoMarketParams) (morpho wallet : List ℕ) (p : OfAddresses params)
      (here : IsAddress morpho) (w : IsAddress wallet) where
    call_fits :
        (signature : Text) (tokens : List Token)
        → All OfBytes tokens
        → CallFits hex
            (eth.print_address morpho)
            (encode_morpho_call hex eth signature params tokens)
    call_fits signature tokens fit =
        encode_morpho_call-CallFits morpho signature params tokens here p fit

    plan_action_fits :
        (amount : ResolvedAmount) (action : MorphoAction) (plan : Planned)
        → plan_action hex eth params morpho wallet amount action ≡ ok plan
        → PlanFits morpho plan
    unfolding plan_action OfBytes
    plan_action_fits amount supply plan h =
        let (n, e, h1) = bind_ok (require_assets amount supply) _ h in
        subst (PlanFits morpho) (ok_inj _ plan h1) (
          approval_batch_fits params.loan_token morpho n _ p.loan here (
            call_fits _ (uint n ∷ uint 0 ∷ address wallet ∷ dynamic_bytes [] ∷ [])
              (tt, (tt, (w, (tt, tt))))))
    plan_action_fits amount withdraw plan h =
        let (n, s) = split_amount amount in
        subst (PlanFits morpho) (ok_inj _ plan h) (
          call_fits _ (uint n ∷ uint s ∷ address wallet ∷ address wallet ∷ [])
            (tt, (tt, (w, (w, tt)))))
    plan_action_fits amount supply_collateral plan h =
        let (n, e, h1) = bind_ok (require_assets amount supply_collateral) _ h in
        subst (PlanFits morpho) (ok_inj _ plan h1) (
          approval_batch_fits params.collateral_token morpho n _ p.collateral here
            (call_fits _ (uint n ∷ address wallet ∷ dynamic_bytes [] ∷ []) (tt, (w, (tt, tt)))))
    plan_action_fits amount withdraw_collateral plan h =
        let (n, e, h1) = bind_ok (require_assets amount withdraw_collateral) _ h in
        subst (PlanFits morpho) (ok_inj _ plan h1)
          (call_fits _ (uint n ∷ address wallet ∷ address wallet ∷ []) (tt, (w, (w, tt))))
    plan_action_fits amount borrow plan h =
        let (n, e, h1) = bind_ok (require_assets amount borrow) _ h in
        subst (PlanFits morpho) (ok_inj _ plan h1) (
          call_fits _ (uint n ∷ uint 0 ∷ address wallet ∷ address wallet ∷ [])
            (tt, (tt, (w, (w, tt)))))
    plan_action_fits amount repay plan h =
        let (n, s) = split_amount amount in
        subst (PlanFits morpho) (ok_inj _ plan h) (
          approval_batch_fits params.loan_token morpho _ _ p.loan here (
            call_fits _ (uint n ∷ uint s ∷ address wallet ∷ dynamic_bytes [] ∷ [])
              (tt, (tt, (w, (tt, tt))))))

  -- The calls of a plan, as a request has them.
  PlanFits-CallsFit :
      (morpho : List ℕ) (plan : Planned) (req : ExecutionRequest)
      → PlanFits morpho plan
      → target_of hex eth morpho plan ≡ req.target_contract
      → calldata_of hex eth plan ≡ req.calldata
      → batch_of hex eth plan ≡ req.batch_calls
      → CallsFit hex req req.batch_calls
  unfolding target_of calldata_of batch_of
  PlanFits-CallsFit morpho (single calldata) req fit t c b = rw (← t, ← c, ← b) fit
  PlanFits-CallsFit morpho (batch calls) req fit t c b = rw (← b) fit

  valid_agent :
      (req : MorphoActionRequest)
      → validate_action_request hex eth req ≡ ok tt
      → (is_empty (trim req.agent_id) ≡ false) × (byte_len req.agent_id ≤ 256)
  unfolding validate_action_request validate_agent_and_chain
  valid_agent req h =
      let (u, a, h1) = bind_ok (validate_agent_and_chain req.agent_id req.chain) _ h in
      let (named, a1) = fail_if_ok (is_empty (trim req.agent_id)) agent_id_required _ a in
      let (short, a2) = fail_if_ok (ltb 256 (byte_len req.agent_id)) agent_id_too_long _ a1 in
      (named, ground arith)

  module _ (params : MorphoMarketParams) (wallet : List ℕ) where
    compile_action_ok :
        (req : MorphoActionRequest) (action : MorphoAction) (amount : ResolvedAmount)
        (out : ExecutionRequest)
        → OfAddresses params
        → IsAddress wallet
        → compile_action hex eth req action params wallet amount ≡ ok out
        → (is_empty (trim req.agent_id) ≡ false)
          × (byte_len req.agent_id ≤ 256)
          × Made hex eth req.agent_id req.chain out
    unfolding compile_action
    compile_action_ok req action amount out p w h =
        let (u, valid, h1) = bind_ok (validate_action_request hex eth req) _ h in
        let (morpho, m, h2) = bind_ok (or_err (eth.parse_address morpho_address) panicked) _ h1 in
        let (plan, e, h3) = bind_ok (plan_action hex eth params morpho wallet amount action) _ h2 in
        let here = read-IsAddress hex eth morpho_address panicked morpho m in
        let fit = plan_action_fits params morpho wallet p here w amount action plan e in
        let (named, short) = valid_agent req valid in
        let made = ok_inj _ out h3 in
        (
          named,
          short,
          (
            ap (λ (r : ExecutionRequest). r.agent_id) (sym made),
            ap (λ (r : ExecutionRequest). r.chain) (sym made),
            PlanFits-CallsFit morpho plan out fit
                (ap (λ (r : ExecutionRequest). r.target_contract) made)
                (ap (λ (r : ExecutionRequest). r.calldata) made)
                (ap (λ (r : ExecutionRequest). r.batch_calls) made),
          ),
        )

    -- A compiled action, on a market and for a wallet whose addresses have twenty bytes, is accepted by
    -- the engine exactly if its chain is spelled as the engine spells it and has a provider.
    pub validate-compile_action :
        (configured : Chain → Bool) (req : MorphoActionRequest) (action : MorphoAction)
        (amount : ResolvedAmount) (out : ExecutionRequest) (chain : Chain)
        → OfAddresses params
        → IsAddress wallet
        → compile_action hex eth req action params wallet amount ≡ ok out
        → (validate hex configured out ≡ ok chain)
          ↔ ((from_str_loose req.chain ≡ some chain) × (configured chain ≡ true))
    validate-compile_action configured req action amount out chain p w h =
        let (named, short, made) = compile_action_ok req action amount out p w h in
        let both = accepted_iff hex eth configured req.agent_id req.chain out chain named made in
        (λ v. let (a, b, c) = both.0 v in (a, b), λ (a, b). both.1 (a, b, short))
