-- ===== src/Relayer/Fees.antt =====
-- src/relayer/erc4337/mod.rs: the gas prices that the bundler recommends, with the program's floor.
pub mod Floor
use agent_execution_platform.Prelude.{
  ℕ, ◌+◌, ◌-◌, ◌*◌, Option, none, some, ltb, ◌==◌, if◌then◌else◌,
}
use agent_execution_platform.Prelude.Text.{Text, text, strip_0x}
use agent_execution_platform.Prelude.Results.{Result, ok, or_err, fail_if}
use agent_execution_platform.Prelude.Actions.{Action, pure, lift, raise_as, ◌>>=◌}
use agent_execution_platform.Types.{UserOperation}
use agent_execution_platform.Crates.{Hex, U256, Provider, u256_bound}
use agent_execution_platform.Relayer.Utils.{RelayError, rpc_failed, with_0x, pack_two_uint128}
use agent_execution_platform.Relayer.Answers.{JsonRpcResponse, VoltaireFeesPerGas, read_fees}

-- `U256::saturating_add` and `saturating_mul` on the exact result.
abbrev pub saturate : ℕ → ℕ
saturate n = if ltb n u256_bound then n else u256_bound - 1

-- The floor `2 * base fee + priority`, where the latest block says a base fee.
unfoldable pub raise_to_floor : Option (Option ℕ) → ℕ → ℕ → ℕ
raise_to_floor none max_fee max_priority = max_fee
raise_to_floor (some none) max_fee max_priority = max_fee
raise_to_floor (some (some base_fee)) max_fee max_priority =
    let required_min = saturate (saturate (base_fee * 2) + max_priority) in
    if ltb max_fee required_min then required_min else max_fee

unfoldable pub cap_priority : ℕ → ℕ → ℕ
cap_priority max_fee max_priority = if ltb max_fee max_priority then max_fee else max_priority

module _ {C : Type 0} (u256 : U256) (provider : Provider C)
    (voltaire_fees_per_gas : Action C Text (JsonRpcResponse VoltaireFeesPerGas)) where
  -- The maximum fee and the priority fee, in this order.
  unfoldable pub get_gas_prices : Action C RelayError (ℕ × ℕ)
  unfolding read_fees raise_to_floor cap_priority
  get_gas_prices = do
    response ← raise_as rpc_failed voltaire_fees_per_gas
    (max_fee, max_priority) ← lift (read_fees u256 response)
    block ← raise_as rpc_failed provider.latest_base_fee
    let raised = raise_to_floor block max_fee max_priority
    pure (raised, cap_priority raised max_priority)

  unfoldable pub apply_estimation_fee_hints :
      Hex → UserOperation → Action C RelayError UserOperation
  unfolding get_gas_prices
  apply_estimation_fee_hints hex user_op = do
    (max_fee, priority_fee) ← get_gas_prices
    pure (record user_op {
      gas_fees = with_0x (hex.encode (pack_two_uint128 u256 priority_fee max_fee));
    })
