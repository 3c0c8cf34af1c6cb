-- ===== src/Tests/MorphoRuns.antt =====
-- Runs of the guard and of the interest of Morpho Blue.
use agent_execution_platform.Prelude.{
  ℕ, ◌+◌, ◌-◌, ◌*◌, ◌≤◌, ◌≡◌, refl, ◌⊎◌, Option, none, some, [], ◌∷◌, arith,
}
use agent_execution_platform.Prelude.Text.{Text, text}
use agent_execution_platform.Prelude.Decimal.{exp10}
use agent_execution_platform.Prelude.Results.{ok}
use agent_execution_platform.Protocols.Morpho.{
  MorphoActionRequest, borrow, withdraw_collateral, MorphoMarketState, MarketContext, available,
  MorphoPosition, assets,
}
use agent_execution_platform.Protocols.Morpho.Math.{
  wad, checked_add, checked_mul, u512_to_u256, mul_div_down, mul_div_up, to_assets_down,
  to_assets_up, to_shares_down, to_shares_up, taylor_compounded, add_fee_shares, accrue_fee,
  accrue_interest, accrue_market_state_at,
}
use agent_execution_platform.Protocols.Morpho.Rounding.{to_assets-to_shares}
use agent_execution_platform.Protocols.Morpho.Accrual.{
  IsMarket, KeepsValue, accrue_market_state_at-IsMarket,
}
use agent_execution_platform.Protocols.Morpho.Health.{
  parse_min_health_factor, project_borrow, project_withdraw, check_capacity, check_health,
  enforce_health_guard,
}
use agent_execution_platform.Protocols.Morpho.Covered.{
  Backed, enforce_health_guard-borrow, enforce_health_guard-withdraw_collateral,
}

abbrev state : MorphoMarketState
state = record {
  total_supply_assets = 1_000_000_000;
  total_supply_shares = 1_000_000_000_000_000;
  total_borrow_assets = 400_000_000;
  total_borrow_shares = 400_000_000_000_000;
  last_update = 1000;
  fee = 100_000_000_000_000_000;
}

-- An hour later, at a rate of about three percent a year, with a fee of a tenth.
abbrev later : MorphoMarketState
later = record state {
  total_borrow_assets = 400_001_440;
  total_supply_assets = 1_000_001_440;
  total_supply_shares = 1_000_000_143_999_813;
}

hour : accrue_market_state_at state 1_000_000_000 4600 ≡ ok later
unfolding accrue_market_state_at accrue_interest taylor_compounded checked_mul u512_to_u256
    mul_div_down checked_add accrue_fee add_fee_shares to_shares_down
hour = refl

accrue_market_state_at-IsMarket_example : IsMarket later × KeepsValue state later
accrue_market_state_at-IsMarket_example =
    accrue_market_state_at-IsMarket state later 1_000_000_000 4600
      (record { lent = omega arith; fee_part = omega arith }) hour

to_assets-to_shares_example : (1233 ≤ 1234) × (1234 ≤ 1235)
unfolding to_shares_down to_assets_down to_shares_up to_assets_up checked_add mul_div_down
    mul_div_up u512_to_u256
to_assets-to_shares_example =
    to_assets-to_shares 1234 437001441 400_000_000_000_000 1129515726 1233 1129515727 1235 refl refl
      refl refl

abbrev request : MorphoActionRequest
request = record {
  agent_id = text "agent-1";
  chain = text "base";
  market_id = text "0x6143c1e52ed45fb9a0551b349abb4a1b8c5962dd39545ac235a9c98610bf97da";
  amount = none;
  amount_raw = some (text "500000000");
  min_health_factor = none;
  strategy_id = none;
  callback_url = none;
}

-- Two thousand units of the loan token for one of the collateral.
abbrev context : MarketContext
context = record {
  market_id = [];
  params = record {
    loan_token = 1 ∷ [];
    collateral_token = 2 ∷ [];
    oracle = 3 ∷ [];
    irm = 4 ∷ [];
    lltv = 860_000_000_000_000_000;
  };
  state = state;
  loan_symbol = text "USDC";
  loan_decimals = 6;
  collateral_symbol = text "WETH";
  collateral_decimals = 18;
  oracle_status = available;
  borrow_rate = 0;
  oracle_price = some (2000 * exp10 24);
}

abbrev position : MorphoPosition
position = record { supply_shares = 0; borrow_shares = 0; collateral = exp10 18 }

abbrev indebted : MorphoPosition
indebted = record position { borrow_shares = 500_000_000_000_000 }

abbrev no_units : Text → ℕ → Option ℕ
no_units t decimals = none

borrows : enforce_health_guard no_units request borrow context position (assets 500_000_000) ≡ ok tt
unfolding enforce_health_guard parse_min_health_factor project_borrow to_shares_up checked_add
    mul_div_up u512_to_u256 to_assets_up check_health check_capacity mul_div_down
borrows = refl

withdraws :
    enforce_health_guard no_units request withdraw_collateral context indebted
      (assets 100_000_000_000_000_000)
    ≡ ok tt
unfolding enforce_health_guard parse_min_health_factor project_withdraw to_assets_up checked_add
    mul_div_up u512_to_u256 check_health check_capacity mul_div_down
withdraws = refl

enforce_health_guard-borrow_example :
    (minimum new_shares debt : ℕ) × (parse_min_health_factor no_units none ≡ ok minimum)
    × (wad ≤ minimum)
    × (500_000_000 ≤ 1_000_000_000 - 400_000_000)
    × (to_shares_up 500_000_000 400_000_000 400_000_000_000_000 ≡ ok new_shares)
    × (to_assets_up (0 + new_shares) (400_000_000 + 500_000_000) (400_000_000_000_000 + new_shares)
        ≡ ok debt)
    × (500_000_000 ≤ debt)
    × ((debt ≡ 0) ⊎ Backed context minimum (exp10 18) debt)
enforce_health_guard-borrow_example =
    enforce_health_guard-borrow no_units request context position 500_000_000 borrows

enforce_health_guard-withdraw_collateral_example :
    (minimum debt : ℕ) × (parse_min_health_factor no_units none ≡ ok minimum)
    × (wad ≤ minimum)
    × (100_000_000_000_000_000 ≤ exp10 18)
    × (to_assets_up 500_000_000_000_000 400_000_000 400_000_000_000_000 ≡ ok debt)
    × ((debt ≡ 0) ⊎ Backed context minimum (exp10 18 - 100_000_000_000_000_000) debt)
enforce_health_guard-withdraw_collateral_example =
    enforce_health_guard-withdraw_collateral no_units request context indebted
      100_000_000_000_000_000 withdraws
