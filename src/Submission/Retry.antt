-- ===== src/Submission/Retry.antt =====
-- src/worker/mod.rs: a submission sends at most two operations, the second with more gas.
use agent_execution_platform.Prelude.{
  ℕ, zero, suc, ◌+◌, ◌<◌, ◌≤◌, ◌≡◌, refl, inl, inr, Option, none, some, List, ltb, leb, Bool-cases,
  Option-cases, arith,
}
use agent_execution_platform.Prelude.Text.{Text}
use agent_execution_platform.Prelude.Results.{Result, ok, err, Result-cases}
use agent_execution_platform.Types.{UserOperation}
use agent_execution_platform.Crates.{Hex, U256, Ethers, u256_bound, u64_max}
use agent_execution_platform.Relayer.Utils.{RelayError, with_0x}
use agent_execution_platform.Relayer.UserOp.{RpcUserOperation, to_rpc_user_operation}
use agent_execution_platform.Relayer.Sponsor.{PaymasterSigner, sign_paymaster_data}
use agent_execution_platform.Relayer.Receipt.{
  answered_receipt, poll_loop, wait_for_receipt, user_op_confirmation_timeout,
  user_op_poll_interval,
}
use agent_execution_platform.Submission.Messages.{
  parse_required_pre_verification_gas, parse_u256_token,
}
use agent_execution_platform.Submission.{
  Outside, user_op_hash, sponsor, sign_user_operation_for_submission, send_user_operation,
  receipt_of, bump_pre_verification_gas, buffered_pre_verification_gas, sign_and_send, retry,
  after_first_send, submit_user_operation_with_pre_verification_retry,
}

module _ {C : Type 0} (hex : Hex) (u256 : U256) (eth : Ethers u256) (out : Outside C)
    (entry_point : List ℕ) where
  -- A count of the operations that were sent to the bundler: only a send raises it, by one at most.
  pub record IsSendCount (sends : C → ℕ) : Type 0 where
    pub chainid_keeps : (c : C) → sends (out.provider.get_chainid c).1 ≡ sends c
    pub receipt_keeps : (h : Text) (c : C) → sends (out.receipt h c).1 ≡ sends c
    pub sleep_keeps : (d : ℕ) (c : C) → sends (out.clock.sleep d c) ≡ sends c
    pub send_counts : (p : RpcUserOperation) (c : C) → sends (out.send p c).1 ≤ sends c + 1

  module _ (sends : C → ℕ) (count : IsSendCount sends) where
    hash_keeps :
        (op : UserOperation) (c : C)
        → sends (user_op_hash hex u256 eth out entry_point op c).1 ≡ sends c
    unfolding user_op_hash
    hash_keeps op c = elim (Result-cases (out.provider.get_chainid c).0) [
      | inr (e, q) ↦ ground (arith, count.chainid_keeps c)
      | inl (id, q) ↦ elim (Bool-cases (ltb u64_max id)) [
        | inl big ↦ ground (arith, count.chainid_keeps c)
        | inr fits ↦ ground (arith, count.chainid_keeps c)
      ]
    ]

    sponsor_keeps :
        (signer : Option PaymasterSigner) (chain_id : ℕ) (op : UserOperation) (c : C)
        → (sponsor hex u256 eth out entry_point signer chain_id op c).1 ≡ c
    unfolding sponsor
    sponsor_keeps none chain_id op c = refl
    sponsor_keeps (some signer) chain_id op c =
        elim (Result-cases
          (sign_paymaster_data hex u256 eth signer (out.unix_time c) op chain_id)) [
            | inr (e, q) ↦ ground arith
            | inl (signed, q) ↦ ground arith
          ]

    sign_keeps :
        (signer : Option PaymasterSigner) (chain_id : ℕ) (op : UserOperation) (c : C)
        → sends
            (sign_user_operation_for_submission hex u256 eth out entry_point signer chain_id op c).1
          ≡ sends c
    unfolding sign_user_operation_for_submission
    sign_keeps signer chain_id op c =
        elim (Result-cases (sponsor hex u256 eth out entry_point signer chain_id op c).0) [
          | inr (e, q) ↦ ground (arith, sponsor_keeps signer chain_id op c)
          | inl (sponsored, q) ↦
              let c' = (sponsor hex u256 eth out entry_point signer chain_id op c).1 in
              elim (Result-cases (user_op_hash hex u256 eth out entry_point sponsored c').0) [
                | inr (e, q2) ↦
                    ground (arith, hash_keeps sponsored c', sponsor_keeps signer chain_id op c)
                | inl (op_hash, q2) ↦ elim (Result-cases (out.decrypt_and_sign op_hash)) [
                  | inr (e, q3) ↦
                      ground (arith, hash_keeps sponsored c', sponsor_keeps signer chain_id op c)
                  | inl (sig, q3) ↦
                      ground (arith, hash_keeps sponsored c', sponsor_keeps signer chain_id op c)
                ]
              ]
        ]

    send_adds :
        (op : UserOperation) (c : C)
        → sends (send_user_operation hex u256 eth out entry_point op c).1 ≤ sends c + 1
    unfolding send_user_operation
    send_adds op c = elim (Result-cases (to_rpc_user_operation hex u256 op)) [
      | inr (e, q) ↦ ground arith
      | inl (payload, q) ↦ ground (arith, count.send_counts payload c)
    ]

    loop_keeps :
        (fuel deadline : ℕ) (h : Text) (c : C)
        → sends (poll_loop out.clock out.receipt fuel deadline h c).1 ≡ sends c
    unfolding poll_loop
    loop_keeps zero deadline h c = refl
    loop_keeps (suc fuel) deadline h c = elim (Bool-cases (leb deadline (out.clock.now c))) [
      | inl late ↦ rw late
      | inr early ↦
          elim (Option-cases (answered_receipt out.clock out.receipt (out.receipt h c).0)) [
            | inl e ↦ rw (
              early,
              e,
              loop_keeps fuel deadline h
                  (out.clock.sleep user_op_poll_interval (out.receipt h c).1),
              count.sleep_keeps user_op_poll_interval (out.receipt h c).1,
              count.receipt_keeps h c,
            )
            | inr (receipt, e) ↦ rw (early, e, count.receipt_keeps h c)
          ]
    ]

    wait_keeps :
        (h : Text) (c : C) → sends (receipt_of hex u256 eth out entry_point h c).1 ≡ sends c
    unfolding receipt_of wait_for_receipt
    wait_keeps h c = loop_keeps 41 (out.clock.now c + user_op_confirmation_timeout) h c

    sign_and_send_adds :
        (signer : Option PaymasterSigner) (chain_id : ℕ) (op : UserOperation) (c : C)
        → sends (sign_and_send hex u256 eth out entry_point signer chain_id op c).1 ≤ sends c + 1
    unfolding sign_and_send
    sign_and_send_adds signer chain_id op c =
        let signing =
          sign_user_operation_for_submission hex u256 eth out entry_point signer chain_id op in
        elim (Result-cases (signing c).0) [
          | inr (e, q) ↦ ground (arith, sign_keeps signer chain_id op c)
          | inl (signed, q) ↦
              ground (arith, sign_keeps signer chain_id op c, send_adds signed (signing c).1)
        ]

    retry_adds :
        (signer : Option PaymasterSigner) (chain_id : ℕ) (bumped : Result RelayError UserOperation)
        (c : C)
        → sends (retry hex u256 eth out entry_point signer chain_id bumped c).1 ≤ sends c + 1
    unfolding retry
    retry_adds signer chain_id (err e) c = omega arith
    retry_adds signer chain_id (ok op) c =
        let sending = sign_and_send hex u256 eth out entry_point signer chain_id op in
        elim (Result-cases (sending c).0) [
          | inr (e, q) ↦ ground (arith, sign_and_send_adds signer chain_id op c)
          | inl (h, q) ↦
              ground (arith, sign_and_send_adds signer chain_id op c, wait_keeps h (sending c).1)
        ]

    after_adds :
        (signer : Option PaymasterSigner) (chain_id : ℕ) (op : UserOperation)
        (first : Result RelayError Text) (c : C)
        → sends (after_first_send hex u256 eth out entry_point signer chain_id op first c).1
          ≤ sends c + 1
    unfolding after_first_send
    after_adds signer chain_id op (ok h) c = omega (arith, wait_keeps h c)
    after_adds signer chain_id op (err e) c =
        retry_adds signer chain_id (bump_pre_verification_gas hex u256 eth out entry_point op e) c

    -- A submission sends two operations at most: the first and one retry.
    pub submit_sends_at_most_twice :
        (signer : Option PaymasterSigner) (chain_id : ℕ) (op : UserOperation) (c : C)
        → sends
            (submit_user_operation_with_pre_verification_retry hex u256 eth out entry_point signer
              chain_id op c).1
          ≤ sends c + 2
    unfolding submit_user_operation_with_pre_verification_retry
    submit_sends_at_most_twice signer chain_id op c =
        let signing =
          sign_user_operation_for_submission hex u256 eth out entry_point signer chain_id op in
        elim (Result-cases (signing c).0) [
          | inr (e, q) ↦ ground (arith, sign_keeps signer chain_id op c)
          | inl (signed, q) ↦
              let sending = send_user_operation hex u256 eth out entry_point signed in
              ground (
                arith,
                sign_keeps signer chain_id op c,
                send_adds signed (signing c).1,
                after_adds signer chain_id op (sending (signing c).1).0 (sending (signing c).1).1,
              )
        ]

  -- What a first refusal leads to: the retry has the minimum that was asked for, with its buffer,
  -- and is made only where the operation had less.
  pub bump_pre_verification_gas_lem :
      (op : UserOperation) (refusal : RelayError) (op' : UserOperation)
      → bump_pre_verification_gas hex u256 eth out entry_point op refusal ≡ ok op'
      → (current minimum : ℕ) × (parse_u256_token u256 op.pre_verification_gas ≡ some current)
        × (parse_required_pre_verification_gas u256 (out.error_text refusal) ≡ some minimum)
        × (current < minimum)
        × (op' ≡ record op {
          pre_verification_gas = with_0x (u256.hex_digits (buffered_pre_verification_gas minimum));
        })
        × (minimum < u256_bound → minimum ≤ buffered_pre_verification_gas minimum)
  unfolding bump_pre_verification_gas buffered_pre_verification_gas
  bump_pre_verification_gas_lem op refusal op' h =
      elim (Option-cases (parse_required_pre_verification_gas u256 (out.error_text refusal))) [
        | inl e ↦ absurd (ground arith)
        | inr (minimum, e) ↦ elim (Option-cases (parse_u256_token u256 op.pre_verification_gas)) [
          | inl e2 ↦ absurd (ground arith)
          | inr (current, e2) ↦ elim (Bool-cases (leb minimum current)) [
            | inl enough ↦ absurd (ground arith)
            | inr less ↦
                (current, minimum, e2, e, ground arith, ground arith, λ small. ground arith)
          ]
        ]
      ]
