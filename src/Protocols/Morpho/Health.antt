-- ===== src/Protocols/Morpho/Health.antt =====
-- src/protocols/morpho/service.rs: `enforce_health_guard`.
use agent_execution_platform.Prelude.{
  ℕ, ◌-◌, ◌*◌, Bool, true, false, Option, none, some, ltb, ◌==◌, if◌then◌else◌,
}
use agent_execution_platform.Prelude.Text.{Text, trim}
use agent_execution_platform.Prelude.Decimal.{exp10}
use agent_execution_platform.Prelude.Results.{Result, ok, err, or_err, fail_if, ◌>>=◌, ◌>>◌}
use agent_execution_platform.Protocols.Morpho.{
  MorphoActionRequest, MorphoAction, supply, withdraw, supply_collateral, withdraw_collateral,
  borrow, repay, MarketContext, MorphoPosition, ResolvedAmount, assets, shares, MorphoError,
  factor_not_supported, factor_not_decimal, factor_below_one, guard_needs_assets, exceeds_liquidity,
  exceeds_collateral, no_oracle_price, health_factor_too_low,
}
use agent_execution_platform.Protocols.Morpho.Math.{
  wad, checked_add, mul_div_down, to_shares_up, to_assets_up,
}

abbrev pub default_min_health_factor_wad : ℕ
default_min_health_factor_wad = 1_050_000_000_000_000_000

abbrev pub is_some : Option Text → Bool
is_some none = false
is_some (some t) = true

abbrev pub read_factor : (Text → ℕ → Option ℕ) → Option Text → Result MorphoError ℕ
read_factor parse_units none = ok default_min_health_factor_wad
read_factor parse_units (some raw) = or_err (parse_units (trim raw) 18) factor_not_decimal

-- `ethers::utils::parse_units` is the argument, for a text and a number of decimals.
unfoldable pub parse_min_health_factor : (Text → ℕ → Option ℕ) → Option Text → Result MorphoError ℕ
parse_min_health_factor parse_units raw = do
  value ← read_factor parse_units raw
  fail_if (ltb value wad) factor_below_one
  ok value

abbrev pub asset_amount : ResolvedAmount → Result MorphoError ℕ
asset_amount (assets value) = ok value
asset_amount (shares value) = err guard_needs_assets

-- The collateral and the debt after a borrow, the debt rounded up.
unfoldable pub project_borrow : MarketContext → MorphoPosition → ℕ → Result MorphoError (ℕ × ℕ)
project_borrow context position amount = do
  let state = context.state
  fail_if (ltb (state.total_supply_assets - state.total_borrow_assets) amount) exceeds_liquidity
  new_shares ← to_shares_up amount state.total_borrow_assets state.total_borrow_shares
  total_assets ← checked_add state.total_borrow_assets amount
  total_shares ← checked_add state.total_borrow_shares new_shares
  position_shares ← checked_add position.borrow_shares new_shares
  debt ← to_assets_up position_shares total_assets total_shares
  ok (position.collateral, debt)

-- The same after collateral is taken out.
unfoldable pub project_withdraw : MarketContext → MorphoPosition → ℕ → Result MorphoError (ℕ × ℕ)
project_withdraw context position amount = do
  fail_if (ltb position.collateral amount) exceeds_collateral
  debt ←
      to_assets_up position.borrow_shares context.state.total_borrow_assets
        context.state.total_borrow_shares
  ok (position.collateral - amount, debt)

-- What the collateral allows to be borrowed, against the debt at the factor asked for.
unfoldable pub check_capacity : MarketContext → ℕ → ℕ → ℕ → Result MorphoError (Unit {0})
check_capacity context minimum projected_collateral projected_debt = do
  oracle_price ← or_err context.oracle_price no_oracle_price
  collateral_value ← mul_div_down projected_collateral oracle_price (exp10 36)
  projected_capacity ← mul_div_down collateral_value context.params.lltv wad
  fail_if (ltb (projected_capacity * wad) (projected_debt * minimum)) health_factor_too_low

unfoldable pub check_health : MarketContext → ℕ → ℕ × ℕ → Result MorphoError (Unit {0})
check_health context minimum (projected_collateral, projected_debt) =
    if projected_debt == 0
    then ok tt
    else check_capacity context minimum projected_collateral projected_debt

abbrev not_guarded : MorphoActionRequest → Result MorphoError (Unit {0})
not_guarded req = fail_if (is_some req.min_health_factor) factor_not_supported

module _ (parse_units : Text → ℕ → Option ℕ) where
  abbrev pub guarded :
      MorphoActionRequest
      → (ℕ → Result MorphoError (ℕ × ℕ))
      → MarketContext
      → ResolvedAmount
      → Result MorphoError (Unit {0})
  guarded req project context amount = do
    minimum ← parse_min_health_factor parse_units req.min_health_factor
    value ← asset_amount amount
    projected ← project value
    check_health context minimum projected

  unfoldable pub enforce_health_guard :
      MorphoActionRequest
      → MorphoAction
      → MarketContext
      → MorphoPosition
      → ResolvedAmount
      → Result MorphoError (Unit {0})
  enforce_health_guard req supply context position amount = not_guarded req
  enforce_health_guard req withdraw context position amount = not_guarded req
  enforce_health_guard req supply_collateral context position amount = not_guarded req
  enforce_health_guard req repay context position amount = not_guarded req
  enforce_health_guard req borrow context position amount =
      guarded req (project_borrow context position) context amount
  enforce_health_guard req withdraw_collateral context position amount =
      guarded req (project_withdraw context position) context amount
