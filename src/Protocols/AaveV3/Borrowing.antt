-- ===== src/Protocols/AaveV3/Borrowing.antt =====
-- src/protocols/aave_v3/service.rs: the guard of a borrow, over the reads from the node.
use agent_execution_platform.Prelude.{
  ℕ, ◌<◌, ◌*◌, ◌/◌, ◌≡◌, ◌⊎◌, inl, inr, true, Option, List, arith, ◌==◌, Bool-cases, Option-cases,
}
use agent_execution_platform.Prelude.Text.{text, trim}
use agent_execution_platform.Prelude.Decimal.{exp10}
use agent_execution_platform.Prelude.Results.{ok, err, Result-cases}
use agent_execution_platform.Types.{Chain}
use agent_execution_platform.Crates.{Hex, U256, Ethers, Provider, u256_bound}
use agent_execution_platform.Protocols.Amounts.{is_amount_max}
use agent_execution_platform.Protocols.AaveV3.Requests.{AaveBorrowRequest, AaveAccountData}
use agent_execution_platform.Protocols.AaveV3.Reads.{
  asset_address_and_decimals, borrow_amount, borrow_with_amount_raw, min_health_factor_ray,
  unwrap_text,
}
use agent_execution_platform.Protocols.AaveV3.Health.{
  below_precision, max_borrow_amount, check_borrow,
}
use agent_execution_platform.Protocols.AaveV3.Resolve.{
  fetch_account_data, fetch_asset_price, borrow_amount_at, resolve_borrow_amount,
  guard_borrow_health,
}
use agent_execution_platform.Protocols.Parsing.{Writes, parse_decimal_amount_lem}
use agent_execution_platform.Protocols.Printed.{resolve_amount-to_string}
use agent_execution_platform.Protocols.AaveV3.{sepolia_assets, get, symbol_of}
use agent_execution_platform.Protocols.AaveV3.Guard.{IsSafe, check_borrow_ok}
use agent_execution_platform.Protocols.AaveV3.MaxBorrow.{max_borrow_checked}

module _ {C : Type 0} (hex : Hex) {u256 : U256} (eth : Ethers u256)
    (provider_for_chain : Chain → Option (Provider C)) (chain : Chain) (wallet : List ℕ) where
  resolved_parts :
      (req out : AaveBorrowRequest) (account : AaveAccountData) (price d : ℕ) (c : C)
      → (resolve_borrow_amount hex eth provider_for_chain chain req wallet c).0
        ≡ ok (out, account, price, d)
      → (min amount : ℕ) × (asset : List ℕ) × ((fetch_account_data hex eth provider_for_chain chain
            wallet c).0
          ≡ ok account)
        × (asset_address_and_decimals eth req.asset ≡ ok (asset, d))
        × ((fetch_asset_price hex eth provider_for_chain chain asset
              (fetch_account_data hex eth provider_for_chain chain wallet c).1).0
            ≡ ok price)
        × (min_health_factor_ray u256 req ≡ ok min)
        × (borrow_amount_at hex eth provider_for_chain req account min price d ≡ ok amount)
        × (out ≡ borrow_with_amount_raw u256 req amount)
  unfolding resolve_borrow_amount
  resolved_parts req out account price d c h =
      let r1 = fetch_account_data hex eth provider_for_chain chain wallet c in
      elim (Result-cases r1.0) [
        | inr (e, q) ↦ absurd (ground arith)
        | inl (a, q) ↦ elim (Bool-cases (a.total_collateral_base == 0)) [
          | inl none_left ↦ absurd (ground arith)
          | inr some_collateral ↦ elim (Bool-cases (a.available_borrows_base == 0)) [
            | inl none_left ↦ absurd (ground arith)
            | inr some_borrows ↦ elim (Result-cases (asset_address_and_decimals eth req.asset)) [
              | inr (e, q2) ↦ absurd (ground arith)
              | inl ((asset, decimals), q2) ↦
                  elim (Result-cases
                    (fetch_asset_price hex eth provider_for_chain chain asset r1.1).0) [
                      | inr (e, q3) ↦ absurd (ground arith)
                      | inl (asset_price, q3) ↦
                          elim (Result-cases (min_health_factor_ray u256 req)) [
                            | inr (e, q4) ↦ absurd (ground arith)
                            | inl (min, q4) ↦
                                elim (Result-cases (
                                  borrow_amount_at hex eth provider_for_chain req a min asset_price
                                    decimals)) [
                                      | inr (e, q5) ↦ absurd (ground arith)
                                      | inl (amount, q5) ↦ (
                                        min,
                                        amount,
                                        asset,
                                        ground arith,
                                        ground arith,
                                        ground arith,
                                        ground arith,
                                        ground arith,
                                        ground arith,
                                      )
                                    ]
                          ]
                    ]
            ]
          ]
        ]
      ]

  -- The amount of the resolved request is the amount that was resolved.
  borrow_amount_printed :
      (req : AaveBorrowRequest) (asset : List ℕ) (d amount : ℕ)
      → asset_address_and_decimals eth req.asset ≡ ok (asset, d)
      → amount < u256_bound
      → borrow_amount u256 (borrow_with_amount_raw u256 req amount) ≡ ok amount
  unfolding borrow_amount asset_address_and_decimals
  borrow_amount_printed req asset d amount found fits =
      elim (Option-cases (get sepolia_assets (symbol_of req.asset))) [
        | inl e ↦ absurd (ground arith)
        | inr (a, e) ↦ rw e (resolve_amount-to_string u256 amount a.decimals true fits)
      ]

  factor_written :
      (req : AaveBorrowRequest) (min : ℕ)
      → min_health_factor_ray u256 req ≡ ok min
      → Writes (trim (unwrap_text req.min_health_factor (text "1.05"))) 18 min
  unfolding min_health_factor_ray
  factor_written req min h =
      (parse_decimal_amount_lem u256 (unwrap_text req.min_health_factor (text "1.05")) 18 min).0 h

  -- A borrow that passes the guard is safe for the account that the pool reported: its value, which
  -- is its amount at the price that the oracle reported for the asset of the request and with the
  -- decimals of that asset, is at least one base unit and within what the pool says is available,
  -- and the debt that it leaves is covered at the health factor that the request writes, with at most
  -- 18 places, or at 1.05 where it writes none.
  pub guard_borrow_health-IsSafe :
      (req out : AaveBorrowRequest) (c : C)
      → (guard_borrow_health hex eth provider_for_chain chain req wallet c).0 ≡ ok out
      → (account : AaveAccountData) × (asset : List ℕ) × (price d amount requested min : ℕ)
        × ((fetch_account_data hex eth provider_for_chain chain wallet c).0 ≡ ok account)
        × (asset_address_and_decimals eth req.asset ≡ ok (asset, d))
        × ((fetch_asset_price hex eth provider_for_chain chain asset
              (fetch_account_data hex eth provider_for_chain chain wallet c).1).0
            ≡ ok price)
        × (borrow_amount u256 out ≡ ok amount)
        × (requested ≡ amount * price / exp10 d)
        × Writes (trim (unwrap_text req.min_health_factor (text "1.05"))) 18 min
        × IsSafe account requested min
  unfolding guard_borrow_health
  guard_borrow_health-IsSafe req out c h =
      elim (Result-cases (resolve_borrow_amount hex eth provider_for_chain chain req wallet c).0) [
        | inr (e, q) ↦ absurd (ground arith)
        | inl ((resolved, account, price, d), q) ↦
            elim (Result-cases (borrow_amount u256 resolved)) [
              | inr (e, q1) ↦ absurd (ground arith)
              | inl (amount, q1) ↦
                  elim (Result-cases (check_borrow u256 req account price d amount)) [
                    | inr (e, q2) ↦ absurd (ground arith)
                    | inl (done, q2) ↦
                        let (min, a, asset, fetched, found, priced, ray, taken, same) =
                          resolved_parts req resolved account price d c q in
                        let (requested, min', e1, e2, safe) =
                          check_borrow_ok u256 req account price d amount q2 in
                        (
                          account,
                          asset,
                          price,
                          d,
                          amount,
                          requested,
                          min',
                          fetched,
                          found,
                          priced,
                          ground arith,
                          e1,
                          factor_written req min' e2,
                          safe,
                        )
                  ]
            ]
      ]

  -- For "max", once the reads went well and the limit is not zero, the guard lets the borrow pass
  -- unless its value is rounded to nothing.
  pub guard_borrow_health_max :
      (req out : AaveBorrowRequest) (account : AaveAccountData) (price d : ℕ) (c : C)
      → is_amount_max req.amount req.amount_raw ≡ true
      → (resolve_borrow_amount hex eth provider_for_chain chain req wallet c).0
        ≡ ok (out, account, price, d)
      → let answer = (guard_borrow_health hex eth provider_for_chain chain req wallet c).0 in
        (answer ≡ ok out) ⊎ (answer ≡ err below_precision)
  unfolding guard_borrow_health
  guard_borrow_health_max req out account price d c max q =
      let (min, amount, asset, fetched, found, priced, ray, taken, same) =
        resolved_parts req out account price d c q in
      let (fits, checked) =
        max_borrow_checked u256 req account price d amount min ray (is_max min amount taken) in
      let read = borrow_amount_printed req asset d amount found fits in
      elim checked [ inl passed ↦ inl (ground arith) | inr refused ↦ inr (ground arith) ]
    where
      is_max :
          (min amount : ℕ)
          → borrow_amount_at hex eth provider_for_chain req account min price d ≡ ok amount
          → max_borrow_amount account min price d ≡ ok amount
      is_max min amount e = ground arith
