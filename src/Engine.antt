-- ===== src/Engine.antt =====
-- src/execution_engine/mod.rs: the validation of requests.
pub mod Calls
pub mod Validation
use agent_execution_platform.Prelude.{
  ℕ, ◌+◌, ◌%◌, Bool, true, false, not, ◌||◌, Option, none, some, List, [], ◌∷◌, ltb, ◌==◌,
  if◌then◌else◌, length,
}
use agent_execution_platform.Prelude.Text.{
  Text, text, is_empty, byte_len, starts_with, strip_0x, trim,
}
use agent_execution_platform.Prelude.Results.{
  Result, ok, err, or_err, fail_if, map_err, ◌>>=◌, ◌>>◌,
}
use agent_execution_platform.Types.{Chain, from_str_loose, BatchCall, ExecutionRequest}
use agent_execution_platform.Crates.{Hex}

-- The errors of `validate_call_fields`, in the order in which it checks.
pub data CallError : Type 0 where
  invalid_target missing_prefix empty_calldata odd_length invalid_hex too_short : CallError

pub data ValidationError : Type 0 where
  unsupported_chain not_configured agent_id_required agent_id_too_long : ValidationError
  batch_empty batch_too_long : ValidationError
  batch_call : ℕ → CallError → ValidationError
  single_call : CallError → ValidationError

abbrev is_none : {A : Type 0} → Option A → Bool
is_none none = true
is_none (some a) = false

module _ (hex : Hex) where
  unfoldable pub validate_call_fields : Text → Text → Result CallError (Unit {0})
  validate_call_fields target_contract calldata = do
    fail_if (not (starts_with (text "0x") target_contract) || not (byte_len target_contract == 42))
        invalid_target
    fail_if (not (starts_with (text "0x") calldata)) missing_prefix
    let calldata_hex = strip_0x calldata
    fail_if (is_empty calldata_hex) empty_calldata
    fail_if (not (byte_len calldata_hex % 2 == 0)) odd_length
    fail_if (is_none (hex.decode calldata_hex)) invalid_hex
    fail_if (ltb (byte_len calldata_hex) 8) too_short
    ok tt

  validate_batch : ℕ → List BatchCall → Result ValidationError (Unit {0})
  validate_batch i [] = ok tt
  validate_batch i (call ∷ calls) =
      let rest = validate_batch (i + 1) calls in
      map_err (batch_call i) (validate_call_fields call.target_contract call.calldata) >> rest

  -- Batch or single call, by whether `batch_calls` is given.
  validate_calls : ExecutionRequest → Option (List BatchCall) → Result ValidationError (Unit {0})
  unfolding validate_batch
  validate_calls req (some calls) = do
    fail_if (is_empty calls) batch_empty
    fail_if (ltb 16 (length calls)) batch_too_long
    validate_batch 0 calls
  validate_calls req none =
      map_err single_call (validate_call_fields req.target_contract req.calldata)

  -- `configured` tells the chains that have a provider.
  unfoldable pub validate : (Chain → Bool) → ExecutionRequest → Result ValidationError Chain
  unfolding validate_calls
  validate configured req = do
    chain ← or_err (from_str_loose req.chain) unsupported_chain
    fail_if (not (configured chain)) not_configured
    fail_if (is_empty (trim req.agent_id)) agent_id_required
    fail_if (ltb 256 (byte_len req.agent_id)) agent_id_too_long
    validate_calls req req.batch_calls
    ok chain
