-- ===== src/Protocols/AaveV3/Compiled.antt =====
-- src/protocols/aave_v3/adapter.rs: what the four compilations make: calls that fit.
use mathlib.Core.Path.{subst, ◌∙◌}
use agent_execution_platform.Prelude.{
  ℕ, ◌≡◌, refl, ap, Bool, true, false, Option, none, some, List, [], ◌∷◌, ◌==◌, arith, Option-cases,
  inl, inr,
}
use agent_execution_platform.Prelude.Text.{Text, text, is_empty, trim}
use agent_execution_platform.Prelude.Results.{
  Result, ok, or_err, bind_ok, fail_if, fail_if_ok, ok_inj, ◌>>=◌, ◌>>◌,
}
use agent_execution_platform.Types.{ethereum, from_str_loose, ExecutionRequest}
use agent_execution_platform.Crates.{Hex, U256, Ethers, IsAddress, OfBytes, address, uint}
use agent_execution_platform.Engine.Calls.{CallFits}
use agent_execution_platform.Protocols.Amounts.{
  ProtocolError, amount_zero, bad_constant, panicked, resolve_amount, parse_optional_address,
  parse_address, invalid_address,
}
use agent_execution_platform.Protocols.Calldata.{call_to, encode_erc20_approve}
use agent_execution_platform.Protocols.Acceptance.{
  encode_call-CallFits, read-IsAddress, encode_erc20_approve-CallFits, Made, BatchOk,
}
use agent_execution_platform.Protocols.AaveV3.{
  AaveAsset, sepolia_assets, get, symbol_of, aave_v3_sepolia_pool, variable_rate_mode,
  validate_common_action, validate_chain_and_agent,
}
use agent_execution_platform.Protocols.AaveV3.Requests.{
  AaveSupplyRequest, AaveWithdrawRequest, AaveRepayRequest, AaveBorrowRequest,
}
use agent_execution_platform.Protocols.AaveV3.Checks.{
  unwrap_or, validate_supply_request, validate_withdraw_request, validate_repay_request,
  validate_borrow_request,
}
use agent_execution_platform.Protocols.AaveV3.Compile.{
  encode_aave_supply, encode_aave_withdraw, encode_aave_repay, encode_aave_borrow, compile_supply,
  compile_withdraw, compile_repay, compile_borrow,
}

common_ok :
    (agent_id chain symbol : Text) (a : AaveAsset)
    → validate_common_action agent_id chain symbol ≡ ok a
    → (from_str_loose chain ≡ some ethereum) × (is_empty (trim agent_id) ≡ false)
unfolding validate_common_action validate_chain_and_agent
common_ok agent_id chain symbol a h = elim (Option-cases (from_str_loose chain)) [
  | inl unknown ↦ absurd (ground arith)
  | inr (c, known) ↦ let on : c ≡ ethereum = ground arith in (known ∙ ap some on, ground arith)
]

module _ (hex : Hex) {u256 : U256} (eth : Ethers u256) where
  optional_address-IsAddress :
      (o : Option Text) (fallback : List ℕ) (field : Text) (a : List ℕ)
      → IsAddress fallback
      → parse_optional_address eth o fallback field ≡ ok a
      → IsAddress a
  unfolding parse_optional_address parse_address
  optional_address-IsAddress none fallback field a h e = subst IsAddress (ok_inj fallback a e) h
  optional_address-IsAddress (some t) fallback field a h e =
      read-IsAddress hex eth t (invalid_address field) a e

  -- A request of the agent on Ethereum, with calls that fit.
  abbrev pub Fits : Text → Text → ExecutionRequest → Type 0
  Fits agent_id label out =
      (from_str_loose label ≡ some ethereum)
      × (is_empty (trim agent_id) ≡ false)
      × Made hex eth agent_id label out

  -- A call of the pool behind the approval of its token.
  approved_fits :
      (token pool : List ℕ) (amount : ℕ) (calldata : Text)
      → IsAddress token
      → IsAddress pool
      → CallFits hex (eth.print_address pool) calldata
      → BatchOk hex (
          call_to eth token (encode_erc20_approve hex eth pool amount)
          ∷ call_to eth pool calldata
          ∷ [])
  approved_fits token pool amount calldata t p fit = (
    omega arith,
    omega arith,
    (encode_erc20_approve-CallFits hex eth token pool amount t p, (fit, tt)),
  )

  -- What the four compilations share: the amount, the token and the pool.
  resolved :
      {B : Type 0} (asset_name : Text) (amount amount_raw : Option Text) (allow_max : Bool)
      (rest : ℕ → List ℕ → List ℕ → Result ProtocolError B) (out : B)
      → (do
        asset ← or_err (get sepolia_assets (symbol_of asset_name)) panicked
        n ← resolve_amount u256 amount amount_raw asset.decimals allow_max
        fail_if (n == 0) amount_zero
        token ← or_err (eth.parse_address asset.underlying) bad_constant
        pool ← or_err (eth.parse_address aave_v3_sepolia_pool) bad_constant
        rest n token pool)
        ≡ ok out
      → (n : ℕ) × (token : List ℕ) × (pool : List ℕ) × IsAddress token
        × IsAddress pool
        × (rest n token pool ≡ ok out)
  resolved asset_name amount amount_raw allow_max rest out h =
      let (asset, known_asset, h1) =
        bind_ok (or_err (get sepolia_assets (symbol_of asset_name)) panicked) _ h in
      let (n, am, h2) =
        bind_ok (resolve_amount u256 amount amount_raw asset.decimals allow_max) _ h1 in
      let (positive, h3) = fail_if_ok (n == 0) amount_zero _ h2 in
      let (token, t, h4) =
        bind_ok (or_err (eth.parse_address asset.underlying) bad_constant) _ h3 in
      let (pool, p, h5) =
        bind_ok (or_err (eth.parse_address aave_v3_sepolia_pool) bad_constant) _ h4 in
      (
        n,
        token,
        pool,
        read-IsAddress hex eth asset.underlying bad_constant token t,
        read-IsAddress hex eth aave_v3_sepolia_pool bad_constant pool p,
        h5,
      )

  pub supply_ok :
      (req : AaveSupplyRequest) (wallet : List ℕ) (out : ExecutionRequest)
      → IsAddress wallet
      → compile_supply hex eth req wallet ≡ ok out
      → Fits req.agent_id req.chain out
  unfolding compile_supply validate_supply_request encode_aave_supply OfBytes
  supply_ok req wallet out w h =
      let (u, v, h1) = bind_ok (validate_supply_request eth req) _ h in
      let (a, va, v1) = bind_ok (validate_common_action req.agent_id req.chain req.asset) _ v in
      let (known, named) = common_ok req.agent_id req.chain req.asset a va in
      let (n, token, pool, t, p, h2) =
        resolved req.asset req.amount req.amount_raw false _ out h1 in
      let fit =
        encode_call-CallFits hex eth pool (text "supply(address,uint256,address,uint16)")
          (address token ∷ uint n ∷ address wallet ∷ uint (unwrap_or req.referral_code 0) ∷ []) p
          (t, (tt, (w, (tt, tt)))) in
      (
        known,
        named,
        subst (Made hex eth req.agent_id req.chain) (ok_inj _ out h2)
            (refl, refl, approved_fits token pool n _ t p fit),
      )

  pub withdraw_ok :
      (req : AaveWithdrawRequest) (wallet : List ℕ) (out : ExecutionRequest)
      → IsAddress wallet
      → compile_withdraw hex eth req wallet ≡ ok out
      → Fits req.agent_id req.chain out
  unfolding compile_withdraw validate_withdraw_request encode_aave_withdraw OfBytes
  withdraw_ok req wallet out w h =
      let (u, v, h1) = bind_ok (validate_withdraw_request eth req) _ h in
      let (a, va, v1) = bind_ok (validate_common_action req.agent_id req.chain req.asset) _ v in
      let (known, named) = common_ok req.agent_id req.chain req.asset a va in
      let (n, token, pool, t, p, h2) = resolved req.asset req.amount req.amount_raw true _ out h1 in
      let (other, o, h3) = bind_ok (parse_optional_address eth req.to wallet (text "to")) _ h2 in
      let ot = optional_address-IsAddress req.to wallet (text "to") other w o in
      let fit =
        encode_call-CallFits hex eth pool (text "withdraw(address,uint256,address)")
          (address token ∷ uint n ∷ address other ∷ []) p (t, (tt, (ot, tt))) in
      (
        known,
        named,
        subst (Made hex eth req.agent_id req.chain) (ok_inj _ out h3) (refl, refl, fit),
      )

  pub repay_ok :
      (req : AaveRepayRequest) (wallet : List ℕ) (out : ExecutionRequest)
      → IsAddress wallet
      → compile_repay hex eth req wallet ≡ ok out
      → Fits req.agent_id req.chain out
  unfolding compile_repay validate_repay_request encode_aave_repay OfBytes
  repay_ok req wallet out w h =
      let (u, v, h1) = bind_ok (validate_repay_request eth req) _ h in
      let (a, va, v1) = bind_ok (validate_common_action req.agent_id req.chain req.asset) _ v in
      let (known, named) = common_ok req.agent_id req.chain req.asset a va in
      let (n, token, pool, t, p, h2) =
        resolved req.asset req.amount req.amount_raw false _ out h1 in
      let (other, o, h3) =
        bind_ok (parse_optional_address eth req.on_behalf_of wallet (text "on_behalf_of")) _ h2 in
      let ot = optional_address-IsAddress req.on_behalf_of wallet (text "on_behalf_of") other w o in
      let fit =
        encode_call-CallFits hex eth pool (text "repay(address,uint256,uint256,address)")
          (address token
            ∷ uint n
            ∷ uint (unwrap_or req.interest_rate_mode variable_rate_mode)
            ∷ address other
            ∷ [])
          p (t, (tt, (tt, (ot, tt)))) in
      (
        known,
        named,
        subst (Made hex eth req.agent_id req.chain) (ok_inj _ out h3)
            (refl, refl, approved_fits token pool n _ t p fit),
      )

  pub borrow_ok :
      (req : AaveBorrowRequest) (wallet : List ℕ) (out : ExecutionRequest)
      → IsAddress wallet
      → compile_borrow hex eth req wallet ≡ ok out
      → Fits req.agent_id req.chain out
  unfolding compile_borrow validate_borrow_request encode_aave_borrow OfBytes
  borrow_ok req wallet out w h =
      let (u, v, h1) = bind_ok (validate_borrow_request eth req) _ h in
      let (a, va, v1) = bind_ok (validate_common_action req.agent_id req.chain req.asset) _ v in
      let (known, named) = common_ok req.agent_id req.chain req.asset a va in
      let (n, token, pool, t, p, h2) =
        resolved req.asset req.amount req.amount_raw false _ out h1 in
      let (other, o, h3) =
        bind_ok (parse_optional_address eth req.on_behalf_of wallet (text "on_behalf_of")) _ h2 in
      let ot = optional_address-IsAddress req.on_behalf_of wallet (text "on_behalf_of") other w o in
      let fit =
        encode_call-CallFits hex eth pool (text "borrow(address,uint256,uint256,uint16,address)")
          (address token
            ∷ uint n
            ∷ uint (unwrap_or req.interest_rate_mode variable_rate_mode)
            ∷ uint (unwrap_or req.referral_code 0)
            ∷ address other
            ∷ [])
          p (t, (tt, (tt, (tt, (ot, tt))))) in
      (
        known,
        named,
        subst (Made hex eth req.agent_id req.chain) (ok_inj _ out h3) (refl, refl, fit),
      )
