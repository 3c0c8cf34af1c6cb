-- ===== src/Protocols/Balancer.antt =====
-- src/protocols/balancer_v3/: swaps on Balancer V3. Requests and errors; amounts are U256, deadlines
-- u64 and slippages u16, all of them natural numbers below their bounds.
pub mod Checks
pub mod Limits
pub mod Compile
pub mod Pools
pub mod Quotes
pub mod Best
pub mod Selection
pub mod Service
pub mod Protected
pub mod Accepted
use agent_execution_platform.Prelude.{ℕ, ◌-◌, ◌^◌, Bool, Option, List}
use agent_execution_platform.Prelude.Text.{Text, text}

pub data BalancerSwapKind : Type 0 where
  exact_in exact_out : BalancerSwapKind

pub record BalancerSwapRequest : Type 0 where
  pub agent_id : Text
  pub chain : Text
  pub pool : Text
  pub token_in : Text
  pub token_out : Text
  pub swap_kind : BalancerSwapKind
  pub amount_raw : Text
  pub limit_raw : Option Text
  pub slippage_bps : ℕ
  pub deadline : Option ℕ
  pub strategy_id : Option Text
  pub callback_url : Option Text

-- `struct PoolState`.
pub record PoolState : Type 0 where
  pub tokens : List (List ℕ)
  pub raw_balances : List ℕ
  pub live_balances : List ℕ
  pub is_initialized : Bool
  pub is_paused : Bool
  pub is_in_recovery_mode : Bool
  pub static_swap_fee_percentage : ℕ

-- The messages of the adapter and of the service, by what they complain of.
pub data BalancerError : Type 0 where
  unsupported_chain agent_id_required zero_pool zero_token same_token : BalancerError
  slippage_out_of_range deadline_not_uint48 exceeds_uint160 : BalancerError
  -- A field that holds no address, no number, or zero.
  invalid_address not_integer not_positive : Text → BalancerError
  pool_not_resolved limit_not_resolved deadline_not_resolved : BalancerError
  bad_constant undecodable_reply unexpected_reply lengths_differ : BalancerError
  no_provider bad_calldata : BalancerError
  node platform : Text → BalancerError
  not_registered not_initialized paused in_recovery token_not_in_pool : BalancerError
  swaps_disabled : BalancerError
  quote_refused : BalancerError → BalancerError
  limit_above_quote limit_below_quote zero_quote limit_overflow limit_zero : BalancerError
  clock_before_epoch deadline_passed deadline_overflow deadline_too_far no_quote : BalancerError
  -- A subtraction of U256 below zero.
  panicked : BalancerError

abbrev pub uint160_max : ℕ
uint160_max = 2 ^ 160 - 1

abbrev pub uint48_max : ℕ
uint48_max = 2 ^ 48 - 1

abbrev pub balancer_v3_sepolia_router : Text
balancer_v3_sepolia_router = text "0x5e315f96389C1aaF9324D97d3512ae1e0Bf3C21a"

abbrev pub balancer_v3_sepolia_vault_explorer : Text
balancer_v3_sepolia_vault_explorer = text "0xC82E329C832CAcc8DA65dbB57ac72B068e0CEb9B"

abbrev pub balancer_v3_sepolia_permit2 : Text
balancer_v3_sepolia_permit2 = text "0x000000000022D473030F116dDEE9F6B43aC78BA3"
