-- ===== src/Tests/SubmissionRuns.antt =====
-- The submission of src/worker/mod.rs against a bundler that finds the first operation's gas too low.
use agent_execution_platform.Prelude.{
  ℕ, ◌+◌, ◌≤◌, ◌≡◌, refl, none, some, List, [], ◌++◌, ◌==◌, drop, replicate, if◌then◌else◌, arith,
}
use agent_execution_platform.Prelude.Text.{Text, text, is_whitespace}
use agent_execution_platform.Prelude.Results.{ok}
use agent_execution_platform.Types.{UserOperation}
use agent_execution_platform.Crates.{Provider}
use agent_execution_platform.Relayer.Utils.{
  rejected, with_0x, parse_hex_u256, parse_hex_bytes, parse_hex_bytes32,
}
use agent_execution_platform.Relayer.UserOp.{compute_user_op_hash, apply_signature}
use agent_execution_platform.Relayer.Sponsor.{sign_paymaster_data}
use agent_execution_platform.Submission.{
  Outside, sign_user_operation_for_submission, bump_pre_verification_gas,
  buffered_pre_verification_gas, submit_user_operation_with_pre_verification_retry,
}
use agent_execution_platform.Submission.Messages.{
  parse_required_pre_verification_gas, parse_u256_token,
}
use agent_execution_platform.Submission.Signing.{
  IsSubmittable, Keeps, sign_user_operation_for_submission-IsSubmittable,
}
use agent_execution_platform.Submission.Retry.{IsSendCount, submit_sends_at_most_twice}
use agent_execution_platform.Tests.CrateFixtures.{hex, u256, eth, encode, decode, big_endian}
use agent_execution_platform.Tests.RelayerRuns.{operation, signer, signer-IsSigner}

-- The seconds that have passed, and the operations that were sent.
abbrev Net : Type 0
Net = ℕ × ℕ

abbrev node : Provider Net
node = record {
  call = λ tx c. (ok [], c);
  estimate_gas = λ tx c. (ok 21000, c);
  get_code = λ a c. (ok [], c);
  get_chainid = λ c. (ok 1, c);
  latest_base_fee = λ c. (ok none, c);
}

abbrev too_low : Text
too_low = text "preVerificationGas is too low, minimum: 100"

abbrev outside : Outside Net
outside = record {
  provider = node;
  clock = record { now = λ c. c.0; sleep = λ d c. (c.0 + d, c.1); slept = λ d c. omega arith };
  unix_time = λ c. 1000 + c.0;
  send = λ p c. (
    ok (
        if c.1 == 0
        then record { result = none; error = too_low }
        else record { result = some (text "0xab"); error = [] }),
    (c.0, c.1 + 1),
  );
  receipt = λ h c. (ok (record { result = none; error = [] }), c);
  decrypt_and_sign = λ h. ok (replicate 65 7);
  error_text = λ e. elim e [ rejected t ↦ t | _ ↦ [] ];
}

abbrev entry_point : List ℕ
entry_point = replicate 20 0x43

abbrev small : UserOperation
small = record operation { pre_verification_gas = text "0x10" }

bumps :
    bump_pre_verification_gas hex u256 eth outside entry_point small (rejected too_low)
    ≡ ok (record small { pre_verification_gas = with_0x (u256.hex_digits 1110) })
unfolding bump_pre_verification_gas buffered_pre_verification_gas
    parse_required_pre_verification_gas parse_u256_token is_whitespace
bumps = refl

sends-IsSendCount : IsSendCount hex u256 eth outside entry_point (λ c. c.1)
sends-IsSendCount = record {
  chainid_keeps = λ c. refl;
  receipt_keeps = λ h c. refl;
  sleep_keeps = λ d c. refl;
  send_counts = λ p c. omega arith;
}

submit_sends_at_most_twice_example :
    (submit_user_operation_with_pre_verification_retry hex u256 eth outside entry_point
      (some signer)
      1
      small
      (0, 0)).1.1
    ≤ 2
submit_sends_at_most_twice_example =
    submit_sends_at_most_twice hex u256 eth outside entry_point (λ c. c.1) sends-IsSendCount
      (some signer) 1 small (0, 0)

abbrev submitted : UserOperation
submitted = record small {
  paymaster_and_data = with_0x (
      encode (
        replicate 20 0x22
        ++ drop 16 (big_endian 32 100_000)
        ++ drop 16 (big_endian 32 50_000)
        ++ (big_endian 32 1300 ++ big_endian 32 970)
        ++ replicate 65 1));
  signature = with_0x (encode (replicate 65 7));
}

submits :
    (sign_user_operation_for_submission hex u256 eth outside entry_point
      (some signer)
      1
      small
      (0, 0)).0
    ≡ ok submitted
unfolding sign_user_operation_for_submission apply_signature sign_paymaster_data decode
    parse_hex_u256 parse_hex_bytes compute_user_op_hash parse_hex_bytes32 encode big_endian
submits = refl

sign_user_operation_for_submission-IsSubmittable_example :
    IsSubmittable hex u256 eth outside entry_point signer (0, 0) 1 submitted
    × Keeps hex u256 eth outside entry_point small submitted
sign_user_operation_for_submission-IsSubmittable_example =
    sign_user_operation_for_submission-IsSubmittable hex u256 eth outside entry_point signer 1 small
      (0, 0) submitted signer-IsSigner (omega arith) submits
