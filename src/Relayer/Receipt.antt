-- ===== src/Relayer/Receipt.antt =====
-- src/relayer/erc4337/mod.rs: the wait for a UserOperation's receipt.
pub mod Polling
use agent_execution_platform.Prelude.{
  ℕ, zero, suc, ◌+◌, Bool, true, false, Option, none, some, leb, if◌then◌else◌,
}
use agent_execution_platform.Prelude.Text.{Text, text}
use agent_execution_platform.Prelude.Results.{Result, ok, err}
use agent_execution_platform.Prelude.Actions.{Action}
use agent_execution_platform.Types.{UserOpResult}
use agent_execution_platform.Crates.{Clock}
use agent_execution_platform.Relayer.Answers.{JsonRpcResponse}

abbrev pub user_op_confirmation_timeout : ℕ
user_op_confirmation_timeout = 120

abbrev pub user_op_poll_interval : ℕ
user_op_poll_interval = 3

-- The receipt, with what the program reads out of its JSON already read.
pub record UserOpReceiptResponse : Type 0 where
  pub success : Bool
  pub transaction_hash : Option Text
  pub block_number : Option ℕ
  pub actual_gas_used : Option ℕ

abbrev pub timeout_message : Text
timeout_message = text "timeout after 120s waiting for UserOp receipt"

abbrev pub reverted_message : Text
reverted_message = text "UserOp reverted on-chain"

abbrev pub timed_out : Text → UserOpResult
timed_out user_op_hash = record {
  user_op_hash = user_op_hash;
  tx_hash = none;
  success = false;
  error = some timeout_message;
  block_number = none;
  gas_used = none;
}

abbrev pub included : Text → UserOpReceiptResponse → UserOpResult
included user_op_hash receipt = record {
  user_op_hash = user_op_hash;
  tx_hash = receipt.transaction_hash;
  success = receipt.success;
  error = if receipt.success then none else some reverted_message;
  block_number = receipt.block_number;
  gas_used = receipt.actual_gas_used;
}

module _ {C : Type 0} (clock : Clock C)
    (get_user_op_receipt : Text → Action C Text (JsonRpcResponse UserOpReceiptResponse)) where
  -- What one poll says: a receipt, or to sleep and poll again, after an error as after no receipt.
  abbrev pub answered_receipt :
      Result Text (JsonRpcResponse UserOpReceiptResponse) → Option UserOpReceiptResponse
  answered_receipt (ok response) = response.result
  answered_receipt (err e) = none

  -- The loop, on fuel: none where the fuel was too little.
  unfoldable pub poll_loop : ℕ → ℕ → Text → C → Option UserOpResult × C
  poll_loop zero deadline user_op_hash c = (none, c)
  poll_loop (suc fuel) deadline user_op_hash c =
      let (answer, c') = get_user_op_receipt user_op_hash c in
      let rest = poll_loop fuel deadline user_op_hash (clock.sleep user_op_poll_interval c') in
      if leb deadline (clock.now c)
      then (some (timed_out user_op_hash), c)
      else elim (answered_receipt answer) [
        | some receipt ↦ (some (included user_op_hash receipt), c')
        | none ↦ rest
      ]

  unfoldable pub wait_for_receipt : ℕ → Text → C → Option UserOpResult × C
  unfolding poll_loop
  wait_for_receipt fuel user_op_hash c =
      poll_loop fuel (clock.now c + user_op_confirmation_timeout) user_op_hash c
