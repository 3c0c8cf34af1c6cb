-- ===== src/Protocols/Morpho.antt =====
-- src/protocols/morpho/: the actions on a market of Morpho Blue and the state that they are checked
-- against, from the adapter and the service.
pub mod Math
pub mod Rounding
pub mod Accrual
pub mod Health
pub mod Covered
pub mod Compile
pub mod Accepted
pub mod Requests
use agent_execution_platform.Prelude.{ℕ, Option, List}
use agent_execution_platform.Prelude.Text.{Text, text}

pub record MorphoActionRequest : Type 0 where
  pub agent_id : Text
  pub chain : Text
  pub market_id : Text
  pub amount : Option Text
  pub amount_raw : Option Text
  pub min_health_factor : Option Text
  pub strategy_id : Option Text
  pub callback_url : Option Text

pub data MorphoAction : Type 0 where
  supply withdraw supply_collateral withdraw_collateral borrow repay : MorphoAction

unfoldable pub slug : MorphoAction → Text
slug supply = text "supply"
slug withdraw = text "withdraw"
slug supply_collateral = text "supply-collateral"
slug withdraw_collateral = text "withdraw-collateral"
slug borrow = text "borrow"
slug repay = text "repay"

pub record MorphoMarketParams : Type 0 where
  pub loan_token : List ℕ
  pub collateral_token : List ℕ
  pub oracle : List ℕ
  pub irm : List ℕ
  pub lltv : ℕ

pub record MorphoMarketState : Type 0 where
  pub total_supply_assets : ℕ
  pub total_supply_shares : ℕ
  pub total_borrow_assets : ℕ
  pub total_borrow_shares : ℕ
  pub last_update : ℕ
  pub fee : ℕ

pub record MorphoPosition : Type 0 where
  pub supply_shares : ℕ
  pub borrow_shares : ℕ
  pub collateral : ℕ

pub data MorphoOracleStatus : Type 0 where
  available stale unavailable zero_price not_configured not_read : MorphoOracleStatus

pub record MarketContext : Type 0 where
  pub market_id : List ℕ
  pub params : MorphoMarketParams
  pub state : MorphoMarketState
  pub loan_symbol : Text
  pub loan_decimals : ℕ
  pub collateral_symbol : Text
  pub collateral_decimals : ℕ
  pub oracle_price : Option ℕ
  pub oracle_status : MorphoOracleStatus
  pub borrow_rate : ℕ

pub data ResolvedAmount : Type 0 where
  assets shares : ℕ → ResolvedAmount

-- The messages of the adapter and of the service, by what they complain of.
pub data MorphoError : Type 0 where
  agent_id_required agent_id_too_long wrong_chain invalid_market_id : MorphoError
  not_one_amount no_amount empty_amount amount_zero : MorphoError
  shares_not_supported : MorphoAction → MorphoError
  addition_overflow exceeds_uint256 division_by_zero : MorphoError
  factor_not_supported factor_not_decimal factor_below_one guard_needs_assets : MorphoError
  exceeds_liquidity exceeds_collateral no_oracle_price health_factor_too_low : MorphoError
  panicked : MorphoError
