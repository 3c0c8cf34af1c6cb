-- ===== src/Relayer/Answers.antt =====
-- src/relayer/erc4337/mod.rs: the bundler's answers, and the numbers read from them.
use agent_execution_platform.Prelude.{ℕ, Option, ◌==◌}
use agent_execution_platform.Prelude.Text.{Text, strip_0x}
use agent_execution_platform.Prelude.Results.{Result, ok, or_err, fail_if, ◌>>=◌, ◌>>◌}
use agent_execution_platform.Crates.{U256}
use agent_execution_platform.Relayer.Utils.{
  RelayError, rejected, zero_max_fee, invalid_fee, invalid_estimate,
}

-- A bundler's answer: its result or, where there is none, the text of its error.
pub record JsonRpcResponse (T : Type 0) : Type 0 where
  pub result : Option T
  pub error : Text

pub record VoltaireFeesPerGas : Type 0 where
  pub max_priority_fee_per_gas : Text
  pub max_fee_per_gas : Text

pub record GasEstimateResponse : Type 0 where
  pub call_gas_limit : Text
  pub verification_gas_limit : Text
  pub pre_verification_gas : Text

-- The recommendation as two numbers, the maximum fee first.
unfoldable pub read_fees : U256 → JsonRpcResponse VoltaireFeesPerGas → Result RelayError (ℕ × ℕ)
read_fees u256 response = do
  result ← or_err response.result (rejected response.error)
  max_fee ← or_err (u256.from_str_radix_16 (strip_0x result.max_fee_per_gas)) invalid_fee
  max_priority ←
      or_err (u256.from_str_radix_16 (strip_0x result.max_priority_fee_per_gas)) invalid_fee
  fail_if (max_fee == 0) zero_max_fee
  ok (max_fee, max_priority)

-- The call's gas, the verification's, and the gas before it.
unfoldable pub read_estimate :
    U256 → JsonRpcResponse GasEstimateResponse → Result RelayError (ℕ × ℕ × ℕ)
read_estimate u256 response = do
  estimate ← or_err response.result (rejected response.error)
  call_gas ← or_err (u256.from_str_radix_16 (strip_0x estimate.call_gas_limit)) invalid_estimate
  verification_gas ←
      or_err (u256.from_str_radix_16 (strip_0x estimate.verification_gas_limit)) invalid_estimate
  pre_verification_gas ←
      or_err (u256.from_str_radix_16 (strip_0x estimate.pre_verification_gas)) invalid_estimate
  ok (call_gas, verification_gas, pre_verification_gas)
