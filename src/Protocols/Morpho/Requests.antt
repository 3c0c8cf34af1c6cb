-- ===== src/Protocols/Morpho/Requests.antt =====
-- src/protocols/morpho/adapter.rs: the requests that are compiled, described without the code.
use agent_execution_platform.Prelude.{
  ℕ, ◌≤◌, ◌≡◌, ◌↔◌, refl, true, false, Option, some, none, List, arith, map,
}
use agent_execution_platform.Prelude.Text.{
  Text, text, text_eq_iff, is_empty, trim, byte_len, starts_with, ascii_lower,
}
use agent_execution_platform.Prelude.Results.{
  Result, ok, err, is_ok, bind_ok, bind_eq, Result-cases, ◌>>=◌,
}
use mathlib.Core.Path.{sym, ◌∙◌}
use mathlib.Core.Logic.{inl, inr}
use agent_execution_platform.Crates.{Hex, U256, Ethers}
use agent_execution_platform.Protocols.Morpho.{
  MorphoActionRequest, MorphoAction, supply, withdraw, supply_collateral, withdraw_collateral,
  borrow, repay, MorphoMarketParams, ResolvedAmount, assets, shares,
}
use agent_execution_platform.Protocols.Morpho.Compile.{
  validate_chain, validate_agent_and_chain, validate_amount_fields, require_assets, parse_market_id,
  validate_action_request, plan_action, compile_action,
}

-- One of the two amounts is given, and it is not blank.
abbrev pub OneAmount : Option Text → Option Text → Type 0
OneAmount (some a) (some b) = ⊥
OneAmount none none = ⊥
OneAmount (some a) none = is_empty (trim a) ≡ false
OneAmount none (some b) = is_empty (trim b) ≡ false

-- Withdrawing and repaying go by assets or by shares; the rest takes a positive amount of assets.
abbrev pub Suits : MorphoAction → ResolvedAmount → Type 0
Suits withdraw amount = Unit
Suits repay amount = Unit
Suits action (assets n) = 1 ≤ n
Suits action (shares n) = ⊥

module _ (hex : Hex) {u256 : U256} (eth : Ethers u256) where
  pub record IsRequest (req : MorphoActionRequest) : Type 0 where
    pub named : is_empty (trim req.agent_id) ≡ false
    pub short : byte_len req.agent_id ≤ 256
    pub on_base : map ascii_lower (trim req.chain) ≡ text "base"
    pub market_prefix : starts_with (text "0x") (trim req.market_id) ≡ true
    pub market_length : byte_len (trim req.market_id) ≡ 66
    pub market : (id : List ℕ) × (eth.parse_h256 (trim req.market_id) ≡ some id)
    pub one_amount : OneAmount req.amount req.amount_raw

  is_ok_map :
      {E : Type 0} {A B : Type 0} (r : Result E A) (f : A → B)
      → is_ok (r >>= λ a. ok (f a)) ≡ is_ok r
  is_ok_map (ok a) f = refl
  is_ok_map (err e) f = refl

  agent_iff :
      (agent_id chain : Text)
      → (validate_agent_and_chain agent_id chain ≡ ok tt) ↔ (
          (is_empty (trim agent_id) ≡ false)
          × (byte_len agent_id ≤ 256)
          × (map ascii_lower (trim chain) ≡ text "base"))
  unfolding validate_agent_and_chain validate_chain
  agent_iff agent_id chain =
      let base = text_eq_iff (map ascii_lower (trim chain)) (text "base") in ground (arith, base)

  market_iff :
      (raw : Text)
      → ((id : List ℕ) × (parse_market_id hex eth raw ≡ ok id)) ↔ (
          (starts_with (text "0x") (trim raw) ≡ true)
          × (byte_len (trim raw) ≡ 66)
          × ((id : List ℕ) × (eth.parse_h256 (trim raw) ≡ some id)))
  unfolding parse_market_id
  market_iff raw = (
    λ (id, h).
        let prefix : starts_with (text "0x") (trim raw) ≡ true = ground arith in
        let len : byte_len (trim raw) ≡ 66 = ground arith in
        let e : eth.parse_h256 (trim raw) ≡ some id = ground arith in (prefix, len, (id, e)),
    λ (prefix, len, (id, e)). (id, ground arith),
  )

  amount_iff :
      (amount amount_raw : Option Text)
      → (validate_amount_fields amount amount_raw ≡ ok tt) ↔ OneAmount amount amount_raw
  unfolding validate_amount_fields
  amount_iff (some a) (some b) = ground arith
  amount_iff none none = ground arith
  amount_iff (some a) none = ground arith
  amount_iff none (some b) = ground arith

  plan_iff :
      (params : MorphoMarketParams) (morpho wallet : List ℕ) (amount : ResolvedAmount)
      (action : MorphoAction)
      → (is_ok (plan_action hex eth params morpho wallet amount action) ≡ true)
        ↔ Suits action amount
  unfolding plan_action require_assets
  plan_iff params morpho wallet (assets n) supply = ground arith
  plan_iff params morpho wallet (shares n) supply = ground arith
  plan_iff params morpho wallet (assets n) supply_collateral = ground arith
  plan_iff params morpho wallet (shares n) supply_collateral = ground arith
  plan_iff params morpho wallet (assets n) withdraw_collateral = ground arith
  plan_iff params morpho wallet (shares n) withdraw_collateral = ground arith
  plan_iff params morpho wallet (assets n) borrow = ground arith
  plan_iff params morpho wallet (shares n) borrow = ground arith
  plan_iff params morpho wallet amount withdraw = (λ h. tt, λ h. refl)
  plan_iff params morpho wallet amount repay = (λ h. tt, λ h. refl)

  validate_action_request-IsRequest :
      (req : MorphoActionRequest) → (validate_action_request hex eth req ≡ ok tt) ↔ IsRequest req
  unfolding validate_action_request
  validate_action_request-IsRequest req = (
    λ h.
        let (u, a, h1) = bind_ok (validate_agent_and_chain req.agent_id req.chain) _ h in
        let (id, m, h2) = bind_ok (parse_market_id hex eth req.market_id) _ h1 in
        let (named, short, base) = (agent_iff req.agent_id req.chain).0 a in
        let (prefix, len, market) = (market_iff req.market_id).0 (id, m) in
        record {
          named = named;
          short = short;
          on_base = base;
          market_prefix = prefix;
          market_length = len;
          market = market;
          one_amount = (amount_iff req.amount req.amount_raw).0 h2;
        },
    λ r.
        let (id, m) = (market_iff req.market_id).1 (r.market_prefix, r.market_length, r.market) in
        bind_eq (validate_agent_and_chain req.agent_id req.chain) _ tt
          ((agent_iff req.agent_id req.chain).1 (r.named, r.short, r.on_base))
          (bind_eq (parse_market_id hex eth req.market_id) _ id m
            ((amount_iff req.amount req.amount_raw).1 r.one_amount)),
  )

  -- An action is compiled exactly if the request has a name of an agent that is not blank and has
  -- at most 256 bytes, is for Base, in any case and between blanks, has a market of 66 bytes with
  -- 0x that parses, and one amount that is not blank, and the action is to withdraw or to repay or
  -- its resolved amount is a positive number of assets.
  pub compile_action_iff :
      (req : MorphoActionRequest) (action : MorphoAction) (params : MorphoMarketParams)
      (wallet : List ℕ) (amount : ResolvedAmount)
      → (is_ok (compile_action hex eth req action params wallet amount) ≡ true)
        ↔ (IsRequest req × Suits action amount)
  unfolding compile_action
  compile_action_iff req action params wallet amount =
      let (morpho, m) =
        eth.parse_digits (text "BBBBBbbBBb9cC5e90e3b3Af64bdAF62C37EEFFCb") refl refl in
      let plan = plan_iff params morpho wallet amount action in
      let valid = validate_action_request-IsRequest req in
      elim (Result-cases (validate_action_request hex eth req)) [
        | inl (u, e) ↦
            let same : is_ok (compile_action hex eth req action params wallet amount)
                ≡ is_ok (plan_action hex eth params morpho wallet amount action) =
              rw (e, m) (is_ok_map (plan_action hex eth params morpho wallet amount action) _) in
            (λ h. (valid.0 e, plan.0 (sym same ∙ h)), λ (r, s). same ∙ plan.1 s)
        | inr (e, h) ↦ (ground (arith), λ (r, s). absurd (ground (arith, valid.1 r)))
      ]
