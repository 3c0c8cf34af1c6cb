-- ===== src/Protocols/Balancer/Accepted.antt =====
-- src/protocols/balancer_v3/adapter.rs: a compiled swap, before the engine.
use mathlib.Core.Path.{subst}
use agent_execution_platform.Prelude.{ℕ, ◌≡◌, ◌↔◌, refl, false, Bool, List, [], ◌∷◌, ltb, arith}
use agent_execution_platform.Prelude.Text.{Text, text, is_empty, trim}
use agent_execution_platform.Prelude.Results.{ok, or_err, bind_ok, fail_if_ok, ok_inj}
use agent_execution_platform.Types.{Chain, ExecutionRequest}
use agent_execution_platform.Crates.{
  Hex, U256, Ethers, IsAddress, OfBytes, address, uint, boolean, dynamic_bytes,
}
use agent_execution_platform.Engine.{validate}
use agent_execution_platform.Engine.Calls.{CallFits}
use agent_execution_platform.Protocols.Acceptance.{
  encode_call-CallFits, read-IsAddress, encode_erc20_approve-CallFits, IsReady, BatchOk, Made,
  accepted_iff,
}
use agent_execution_platform.Protocols.Balancer.{
  BalancerSwapKind, BalancerSwapRequest, agent_id_required, pool_not_resolved, limit_not_resolved,
  deadline_not_resolved, deadline_not_uint48, exceeds_uint160, bad_constant, uint160_max,
  uint48_max, balancer_v3_sepolia_router, balancer_v3_sepolia_permit2,
}
use agent_execution_platform.Protocols.Balancer.Checks.{
  validate_chain, validate_swap_request, parse_address, parse_positive_u256,
}
use agent_execution_platform.Protocols.Balancer.Compile.{
  max_input, swap_signature, encode_permit2_approve, encode_swap, swap_calls, compile_swap,
}

module _ (hex : Hex) {u256 : U256} (eth : Ethers u256) where
  parse_address-IsAddress :
      (value field : Text) (a : List ℕ) → parse_address eth value field ≡ ok a → IsAddress a
  unfolding parse_address
  parse_address-IsAddress value field a h = read-IsAddress hex eth (trim value) _ a h

  -- The agent of a valid request has a name.
  named :
      (req : BalancerSwapRequest)
      → validate_swap_request eth req ≡ ok tt
      → is_empty (trim req.agent_id) ≡ false
  unfolding validate_swap_request
  named req h =
      let (u, e, h1) = bind_ok (validate_chain req.chain) _ h in
      (fail_if_ok (is_empty (trim req.agent_id)) agent_id_required _ h1).0

  permit2_fits :
      (permit2 token spender : List ℕ) (amount expiration : ℕ) (calldata : Text)
      → IsAddress permit2
      → IsAddress token
      → IsAddress spender
      → encode_permit2_approve hex eth token spender amount expiration ≡ ok calldata
      → CallFits hex (eth.print_address permit2) calldata
  unfolding encode_permit2_approve OfBytes
  permit2_fits permit2 token spender amount expiration calldata here t s h =
      let (p, h1) = fail_if_ok (ltb uint160_max amount) exceeds_uint160 _ h in
      let (q, h2) = fail_if_ok (ltb uint48_max expiration) deadline_not_uint48 _ h1 in
      subst (CallFits hex (eth.print_address permit2)) (ok_inj _ calldata h2) (
        encode_call-CallFits hex eth permit2 (text "approve(address,address,uint160,uint48)")
          (address token ∷ address spender ∷ uint amount ∷ uint expiration ∷ []) here
          (t, (s, (tt, (tt, tt)))))

  swap_fits :
      (kind : BalancerSwapKind) (router pool token_in token_out : List ℕ)
      (amount limit deadline : ℕ)
      → IsAddress router
      → IsAddress pool
      → IsAddress token_in
      → IsAddress token_out
      → CallFits hex
          (eth.print_address router)
          (encode_swap hex eth kind pool token_in token_out amount limit deadline)
  unfolding encode_swap OfBytes
  swap_fits kind router pool token_in token_out amount limit deadline here p i o =
      encode_call-CallFits hex eth router (swap_signature hex eth kind)
        (address pool
          ∷ address token_in
          ∷ address token_out
          ∷ uint amount
          ∷ uint limit
          ∷ uint deadline
          ∷ boolean false
          ∷ dynamic_bytes []
          ∷ [])
        here (p, (i, (o, (tt, (tt, (tt, (tt, (tt, tt))))))))

  swap_calls_fit :
      (token_in permit2 router : List ℕ) (most : ℕ) (approval swap revocation : Text)
      → IsAddress token_in
      → IsAddress permit2
      → CallFits hex (eth.print_address permit2) approval
      → CallFits hex (eth.print_address router) swap
      → CallFits hex (eth.print_address permit2) revocation
      → BatchOk hex (swap_calls hex eth token_in permit2 router most approval swap revocation)
  unfolding swap_calls
  swap_calls_fit token_in permit2 router most approval swap revocation token spender a s r =
      let reset = encode_erc20_approve-CallFits hex eth token_in permit2 0 token spender in
      let set = encode_erc20_approve-CallFits hex eth token_in permit2 most token spender in
      (omega arith, omega arith, (reset, (set, (a, (s, (r, (reset, tt)))))))

  compile_swap_ok :
      (req : BalancerSwapRequest) (out : ExecutionRequest)
      → compile_swap hex eth req ≡ ok out
      → (is_empty (trim req.agent_id) ≡ false) × Made hex eth req.agent_id req.chain out
  unfolding compile_swap
  compile_swap_ok req out h =
      let (u, valid, h1) = bind_ok (validate_swap_request eth req) _ h in
      let (resolved, h2) = fail_if_ok (is_empty (trim req.pool)) pool_not_resolved _ h1 in
      let (pool, p, h3) = bind_ok (parse_address eth req.pool (text "pool")) _ h2 in
      let (token_in, i, h4) = bind_ok (parse_address eth req.token_in (text "token_in")) _ h3 in
      let (token_out, o, h5) = bind_ok (parse_address eth req.token_out (text "token_out")) _ h4 in
      let (amount, a, h6) =
        bind_ok (parse_positive_u256 eth req.amount_raw (text "amount_raw")) _ h5 in
      let (limit_raw, r, h7) = bind_ok (or_err req.limit_raw limit_not_resolved) _ h6 in
      let (limit, l, h8) = bind_ok (parse_positive_u256 eth limit_raw (text "limit_raw")) _ h7 in
      let (deadline, d, h9) = bind_ok (or_err req.deadline deadline_not_resolved) _ h8 in
      let most = max_input req.swap_kind amount limit in
      let (m, h10) = fail_if_ok (ltb uint160_max most) exceeds_uint160 _ h9 in
      let (router, ro, h11) =
        bind_ok (or_err (eth.parse_address balancer_v3_sepolia_router) bad_constant) _ h10 in
      let (permit2, pe, h12) =
        bind_ok (or_err (eth.parse_address balancer_v3_sepolia_permit2) bad_constant) _ h11 in
      let (approval, ap1, h13) =
        bind_ok (encode_permit2_approve hex eth token_in router most deadline) _ h12 in
      let (revocation, re, h14) =
        bind_ok (encode_permit2_approve hex eth token_in router 0 deadline) _ h13 in
      let token = parse_address-IsAddress req.token_in (text "token_in") token_in i in
      let at_router = read-IsAddress hex eth balancer_v3_sepolia_router bad_constant router ro in
      let at_permit2 = read-IsAddress hex eth balancer_v3_sepolia_permit2 bad_constant permit2 pe in
      let fits =
        swap_calls_fit token_in permit2 router most approval
          (encode_swap hex eth req.swap_kind pool token_in token_out amount limit deadline)
          revocation token at_permit2
          (permit2_fits permit2 token_in router most deadline approval at_permit2 token at_router
            ap1)
          (swap_fits req.swap_kind router pool token_in token_out amount limit deadline at_router
            (parse_address-IsAddress req.pool (text "pool") pool p) token
            (parse_address-IsAddress req.token_out (text "token_out") token_out o))
          (permit2_fits permit2 token_in router 0 deadline revocation at_permit2 token at_router
            re) in
      (
        named req valid,
        subst (Made hex eth req.agent_id req.chain) (ok_inj _ out h14) (refl, refl, fits),
      )

  -- A compiled swap is accepted by the engine exactly if its chain is spelled as the engine spells it
  -- and has a provider, and the name of the agent has at most 256 bytes.
  pub validate-compile_swap :
      (configured : Chain → Bool) (req : BalancerSwapRequest) (out : ExecutionRequest)
      (chain : Chain)
      → compile_swap hex eth req ≡ ok out
      → (validate hex configured out ≡ ok chain) ↔ IsReady configured req.chain req.agent_id chain
  validate-compile_swap configured req out chain h =
      let (name, made) = compile_swap_ok req out h in
      accepted_iff hex eth configured req.agent_id req.chain out chain name made
