-- ===== src/Submission.antt =====
-- src/worker/mod.rs: the signing and the submission of a UserOperation, with the one retry after a
-- preVerificationGas that the bundler finds too low.
pub mod Messages
pub mod Signing
pub mod Retry
use agent_execution_platform.Prelude.{
  ℕ, zero, suc, ◌+◌, ◌/◌, Bool, true, false, Option, none, some, List, leb, ltb, if◌then◌else◌,
}
use agent_execution_platform.Prelude.Text.{Text}
use agent_execution_platform.Prelude.Results.{Result, ok, err, or_err}
use agent_execution_platform.Prelude.Actions.{Action, pure, raise, lift, raise_as, ◌>>=◌}
use agent_execution_platform.Types.{UserOperation, UserOpResult}
use agent_execution_platform.Crates.{Hex, U256, Ethers, Provider, Clock, u64_max}
use agent_execution_platform.Relayer.Utils.{
  RelayError, rejected, rpc_failed, panicked, out_of_fuel, invalid_gas, with_0x,
}
use agent_execution_platform.Relayer.UserOp.{
  RpcUserOperation, to_rpc_user_operation, compute_user_op_hash, apply_signature,
}
use agent_execution_platform.Relayer.Sponsor.{PaymasterSigner, sign_paymaster_data}
use agent_execution_platform.Relayer.Answers.{JsonRpcResponse}
use agent_execution_platform.Relayer.Fees.{saturate}
use agent_execution_platform.Relayer.Receipt.{UserOpReceiptResponse, wait_for_receipt}
use agent_execution_platform.Submission.Messages.{
  parse_required_pre_verification_gas, parse_u256_token,
}

-- A tenth and a thousand on top of the minimum that the bundler asks for.
unfoldable pub buffered_pre_verification_gas : ℕ → ℕ
buffered_pre_verification_gas minimum = saturate (saturate (minimum + minimum / 10) + 1_000)

-- What the submission reaches: the chain's node, the bundler, the clocks, and the agent's key.
pub record Outside (C : Type 0) : Type 0 where
  pub provider : Provider C
  pub clock : Clock C
  -- The seconds of the system's clock.
  pub unix_time : C → ℕ
  pub send : RpcUserOperation → Action C Text (JsonRpcResponse Text)
  pub receipt : Text → Action C Text (JsonRpcResponse UserOpReceiptResponse)
  -- `decrypt_and_sign` with the agent's wallet: 65 bytes.
  pub decrypt_and_sign : List ℕ → Result RelayError (List ℕ)
  -- `format!("{error:#}")`.
  pub error_text : RelayError → Text

module _ {C : Type 0} (hex : Hex) (u256 : U256) (eth : Ethers u256) (out : Outside C)
    (entry_point : List ℕ) where
  unfoldable pub user_op_hash : UserOperation → Action C RelayError (List ℕ)
  user_op_hash user_op = do
    chain_id ← raise_as rpc_failed out.provider.get_chainid
    if ltb u64_max chain_id
        then raise panicked
        else lift (compute_user_op_hash hex u256 eth entry_point user_op chain_id)

  -- The paymaster's data, for the operation as it is, where there is a signer.
  sponsor : Option PaymasterSigner → ℕ → UserOperation → Action C RelayError UserOperation
  sponsor none chain_id user_op = pure user_op
  sponsor (some signer) chain_id user_op = do
    signed_pm_data ←
        λ c. (sign_paymaster_data hex u256 eth signer (out.unix_time c) user_op chain_id, c)
    pure (record user_op { paymaster_and_data = with_0x (hex.encode signed_pm_data) })

  -- The paymaster's data first, then the agent's signature of the whole.
  unfoldable pub sign_user_operation_for_submission :
      Option PaymasterSigner → ℕ → UserOperation → Action C RelayError UserOperation
  unfolding sponsor user_op_hash
  sign_user_operation_for_submission paymaster_signer chain_id user_op = do
    sponsored ← sponsor paymaster_signer chain_id user_op
    op_hash ← user_op_hash sponsored
    signature ← lift (out.decrypt_and_sign op_hash)
    pure (apply_signature hex sponsored signature)

  unfoldable pub send_user_operation : UserOperation → Action C RelayError Text
  send_user_operation user_op = do
    payload ← lift (to_rpc_user_operation hex u256 user_op)
    response ← raise_as rpc_failed (out.send payload)
    lift (or_err response.result (rejected response.error))

  -- The wait, which ends on the fuel that it is given here.
  receipt_of : Text → Action C RelayError UserOpResult
  receipt_of user_op_hash c =
      let (result, c') = wait_for_receipt out.clock out.receipt 41 user_op_hash c in
      (or_err result out_of_fuel, c')

  -- What the first refusal asks for: the operation with more gas, or that the refusal is final.
  unfoldable pub bump_pre_verification_gas :
      UserOperation → RelayError → Result RelayError UserOperation
  bump_pre_verification_gas user_op first_error =
      elim (parse_required_pre_verification_gas u256 (out.error_text first_error)) [
        | none ↦ err first_error
        | some minimum ↦ elim (parse_u256_token u256 user_op.pre_verification_gas) [
          | none ↦ err invalid_gas
          | some current ↦
              if leb minimum current
              then err first_error
              else ok (record user_op {
                pre_verification_gas =
                    with_0x (u256.hex_digits (buffered_pre_verification_gas minimum));
              })
        ]
      ]

  sign_and_send : Option PaymasterSigner → ℕ → UserOperation → Action C RelayError Text
  unfolding sign_user_operation_for_submission send_user_operation
  sign_and_send signer chain_id user_op = do
    signed_op ← sign_user_operation_for_submission signer chain_id user_op
    send_user_operation signed_op

  retry :
      Option PaymasterSigner
      → ℕ
      → Result RelayError UserOperation
      → Action C RelayError UserOpResult
  unfolding sign_and_send receipt_of
  retry signer chain_id (err first_error) = raise first_error
  retry signer chain_id (ok bumped) = do
    user_op_hash ← sign_and_send signer chain_id bumped
    receipt_of user_op_hash

  after_first_send :
      Option PaymasterSigner
      → ℕ
      → UserOperation
      → Result RelayError Text
      → Action C RelayError UserOpResult
  unfolding bump_pre_verification_gas retry receipt_of
  after_first_send signer chain_id user_op (ok user_op_hash) = receipt_of user_op_hash
  after_first_send signer chain_id user_op (err first_error) =
      retry signer chain_id (bump_pre_verification_gas user_op first_error)

  unfoldable pub submit_user_operation_with_pre_verification_retry :
      Option PaymasterSigner → ℕ → UserOperation → Action C RelayError UserOpResult
  unfolding sign_user_operation_for_submission send_user_operation after_first_send
  submit_user_operation_with_pre_verification_retry signer chain_id user_op = do
    signed_op ← sign_user_operation_for_submission signer chain_id user_op
    λ c.
        let (sent, c') = send_user_operation signed_op c in
        after_first_send signer chain_id user_op sent c'
