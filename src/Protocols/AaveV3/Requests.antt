-- ===== src/Protocols/AaveV3/Requests.antt =====
-- src/protocols/aave_v3/adapter.rs: the requests, the queries and the answers of Aave V3. What serde
-- leaves to a default is `none`, and the chain is given.
use agent_execution_platform.Prelude.{ℕ, Option, List}
use agent_execution_platform.Prelude.Text.{Text}

pub record AaveSupplyRequest : Type 0 where
  pub agent_id : Text
  pub chain : Text
  pub asset : Text
  pub amount : Option Text
  pub amount_raw : Option Text
  pub referral_code : Option ℕ
  pub strategy_id : Option Text
  pub callback_url : Option Text

pub record AaveWithdrawRequest : Type 0 where
  pub agent_id : Text
  pub chain : Text
  pub asset : Text
  pub amount : Option Text
  pub amount_raw : Option Text
  pub to : Option Text
  pub strategy_id : Option Text
  pub callback_url : Option Text

pub record AaveRepayRequest : Type 0 where
  pub agent_id : Text
  pub chain : Text
  pub asset : Text
  pub amount : Option Text
  pub amount_raw : Option Text
  pub interest_rate_mode : Option ℕ
  pub on_behalf_of : Option Text
  pub strategy_id : Option Text
  pub callback_url : Option Text

pub record AaveBorrowRequest : Type 0 where
  pub agent_id : Text
  pub chain : Text
  pub asset : Text
  pub amount : Option Text
  pub amount_raw : Option Text
  pub interest_rate_mode : Option ℕ
  pub referral_code : Option ℕ
  pub on_behalf_of : Option Text
  pub min_health_factor : Option Text
  pub strategy_id : Option Text
  pub callback_url : Option Text

pub record AavePositionQuery : Type 0 where
  pub agent_id : Text
  pub chain : Text

pub record AaveBalancesQuery : Type 0 where
  pub agent_id : Text
  pub chain : Text

pub record AavePositionResponse : Type 0 where
  pub agent_id : Text
  pub chain : Text
  pub smart_wallet_address : Text
  pub pool_address : Text
  pub total_collateral_base : Text
  pub total_debt_base : Text
  pub available_borrows_base : Text
  pub current_liquidation_threshold_bps : Text
  pub ltv_bps : Text
  pub health_factor : Text

pub record AaveAssetBalance : Type 0 where
  pub symbol : Text
  pub underlying_address : Text
  pub decimals : ℕ
  pub wallet_balance_raw : Text
  pub wallet_balance_formatted : Text
  pub a_token_address : Text
  pub a_token_balance_raw : Text
  pub a_token_balance_formatted : Text
  pub stable_debt_token_address : Text
  pub stable_debt_balance_raw : Text
  pub stable_debt_balance_formatted : Text
  pub variable_debt_token_address : Text
  pub variable_debt_balance_raw : Text
  pub variable_debt_balance_formatted : Text

pub record AaveBalancesResponse : Type 0 where
  pub agent_id : Text
  pub chain : Text
  pub smart_wallet_address : Text
  pub pool_address : Text
  pub assets : List AaveAssetBalance

pub record AaveAccountData : Type 0 where
  pub total_collateral_base : ℕ
  pub total_debt_base : ℕ
  pub available_borrows_base : ℕ
  pub current_liquidation_threshold_bps : ℕ
  pub ltv_bps : ℕ
  pub health_factor : ℕ

pub record AaveReserveDebtTokens : Type 0 where
  pub a_token : List ℕ
  pub stable_debt_token : List ℕ
  pub variable_debt_token : List ℕ

pub record AaveAsset : Type 0 where
  pub underlying : Text
  pub decimals : ℕ
