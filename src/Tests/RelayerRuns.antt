-- ===== src/Tests/RelayerRuns.antt =====
-- The validation of src/execution_engine and the relayer of src/relayer at small inputs.
use agent_execution_platform.Prelude.{
  ℕ, ◌+◌, ◌≤◌, ◌≡◌, ◌↔◌, refl, true, Option, none, some, List, [], ◌++◌, drop, replicate, ltb,
  if◌then◌else◌, arith,
}
use agent_execution_platform.Prelude.Text.{Text, text, trim}
use agent_execution_platform.Prelude.Results.{Result, ok, ◌>>=◌}
use agent_execution_platform.Types.{base, from_str_loose, ExecutionRequest, UserOperation}
use agent_execution_platform.Crates.{Provider, Clock}
use agent_execution_platform.Engine.{validate, validate_call_fields}
use agent_execution_platform.Engine.Validation.{IsAcceptable, validate_iff}
use agent_execution_platform.Relayer.Utils.{
  with_0x, parse_hex_u256, parse_hex_bytes, split_init_code, split_paymaster_and_data,
}
use agent_execution_platform.Relayer.UserOp.{apply_gas_fields, to_rpc_user_operation}
use agent_execution_platform.Relayer.UserOp.Conversion.{to_rpc_user_operation-apply_gas_fields}
use agent_execution_platform.Relayer.Sponsor.{PaymasterSigner, new, sign_paymaster_data}
use agent_execution_platform.Relayer.Sponsor.Layout.{
  IsSigner, IsSignedAt, sign_paymaster_data-IsSignedAt,
}
use agent_execution_platform.Relayer.Answers.{JsonRpcResponse, VoltaireFeesPerGas}
use agent_execution_platform.Relayer.Fees.{get_gas_prices}
use agent_execution_platform.Relayer.Fees.Floor.{Floor, get_gas_prices-Floor}
use agent_execution_platform.Relayer.Receipt.{UserOpReceiptResponse, wait_for_receipt}
use agent_execution_platform.Relayer.Receipt.Polling.{Ended, wait_for_receipt-Ended}
use agent_execution_platform.Tests.CrateFixtures.{hex, u256, eth, encode, decode, big_endian}

abbrev pub request : ExecutionRequest
request = record {
  agent_id = text "agent";
  chain = text "Base";
  target_contract = text "0x1111111111111111111111111111111111111111";
  calldata = text "0xa9059cbb";
  value = text "0";
  strategy_id = none;
  batch_calls = none;
  callback_url = none;
}

validate_iff_example :
    (validate hex (λ chain. true) request ≡ ok base) ↔ IsAcceptable hex (λ chain. true) request base
validate_iff_example = validate_iff hex (λ chain. true) request base

request_accepted : validate hex (λ chain. true) request ≡ ok base
unfolding validate decode from_str_loose trim validate_call_fields
request_accepted = refl

abbrev pub operation : UserOperation
operation = record {
  sender = text "0x1111111111111111111111111111111111111111";
  nonce = text "0x";
  init_code = text "0x";
  call_data = text "0xabcdef";
  account_gas_limits = text "0x";
  pre_verification_gas = text "0x";
  gas_fees = text "0x";
  paymaster_and_data = text "0x";
  signature = text "0x";
}

to_rpc_user_operation-apply_gas_fields_example :
    to_rpc_user_operation hex u256 (apply_gas_fields hex u256 operation 200 300 50 20 2) ≡ (
      split_init_code hex operation.init_code >>= λ init.
      split_paymaster_and_data hex u256 operation.paymaster_and_data >>= λ fields. ok (record {
        sender = operation.sender;
        nonce = operation.nonce;
        factory = init.0;
        factory_data = init.1;
        call_data = operation.call_data;
        call_gas_limit = with_0x (u256.hex_digits 200);
        verification_gas_limit = with_0x (u256.hex_digits 300);
        pre_verification_gas = with_0x (u256.hex_digits 50);
        max_fee_per_gas = with_0x (u256.hex_digits 20);
        max_priority_fee_per_gas = with_0x (u256.hex_digits 2);
        paymaster = fields.paymaster;
        paymaster_verification_gas_limit = fields.paymaster_verification_gas_limit;
        paymaster_post_op_gas_limit = fields.paymaster_post_op_gas_limit;
        paymaster_data = fields.paymaster_data;
        paymaster_signature = fields.paymaster_signature;
        signature = operation.signature;
      }))
to_rpc_user_operation-apply_gas_fields_example =
    to_rpc_user_operation-apply_gas_fields hex u256 operation 200 300 50 20 2 (omega arith)
      (omega arith) (omega arith) (omega arith)

abbrev pub signer : PaymasterSigner
signer = new (replicate 20 0x22) (λ hash. ok (replicate 65 1)) 300

abbrev signed : List ℕ
signed =
    replicate 20 0x22
    ++ drop 16 (big_endian 32 100_000)
    ++ drop 16 (big_endian 32 50_000)
    ++ (big_endian 32 1300 ++ big_endian 32 970)
    ++ replicate 65 1

pub signer-IsSigner : IsSigner signer
signer-IsSigner = record {
  address_len = refl;
  address_bytes = ground arith;
  verification_fits = omega arith;
  post_op_fits = omega arith;
}

signs : sign_paymaster_data hex u256 eth signer 1000 operation 1 ≡ ok signed
unfolding sign_paymaster_data big_endian encode decode parse_hex_u256 parse_hex_bytes
signs = refl

sign_paymaster_data-IsSignedAt_example : IsSignedAt hex u256 eth signer 1000 operation 1 signed
sign_paymaster_data-IsSignedAt_example =
    sign_paymaster_data-IsSignedAt hex u256 eth signer 1000 operation 1 signer-IsSigner
      (omega arith) signs

-- A node whose latest block has a base fee of 15.
abbrev pub node : Provider ℕ
node = record {
  call = λ tx c. (ok [], c);
  estimate_gas = λ tx c. (ok 21000, c);
  get_code = λ a c. (ok [], c);
  get_chainid = λ c. (ok 1, c);
  latest_base_fee = λ c. (ok (some (some 15)), c);
}

abbrev recommended : ℕ → Result Text (JsonRpcResponse VoltaireFeesPerGas) × ℕ
recommended c = (
  ok (record {
    result = some (record { max_priority_fee_per_gas = text "0x2"; max_fee_per_gas = text "0x14" });
    error = [];
  }),
  c,
)

floor_applies : (get_gas_prices u256 node recommended 0).0 ≡ ok (32, 2)
unfolding get_gas_prices
floor_applies = refl

get_gas_prices-Floor_example :
    (2 ≤ 32)
    × (1 ≤ 32)
    × ((block : Option (Option ℕ)) × ((node.latest_base_fee 0).0 ≡ ok block) × Floor block 32 2)
get_gas_prices-Floor_example = get_gas_prices-Floor u256 node recommended 0 32 2 floor_applies

-- A clock that is its own state, and a bundler that has the receipt from second 7 on.
abbrev ticking : Clock ℕ
ticking = record { now = λ c. c; sleep = λ d c. c + d; slept = λ d c. omega arith }

abbrev receipt_at_7 : Text → ℕ → Result Text (JsonRpcResponse UserOpReceiptResponse) × ℕ
receipt_at_7 user_op_hash c = (
  ok (record {
    result =
        if ltb c 7
        then none
        else some (record {
          success = true;
          transaction_hash = some (text "0xaa");
          block_number = some 9;
          actual_gas_used = none;
        });
    error = [];
  }),
  c,
)

wait_for_receipt-Ended_example :
    Ended ticking receipt_at_7 120
      (text "0xab")
      (wait_for_receipt ticking receipt_at_7 41 (text "0xab") 0)
wait_for_receipt-Ended_example =
    wait_for_receipt-Ended ticking receipt_at_7 41 (text "0xab") 0 (λ h c. omega arith)
      (omega arith)

receipt_found : (wait_for_receipt ticking receipt_at_7 41 (text "0xab") 0).1 ≡ 9
unfolding wait_for_receipt
receipt_found = refl
