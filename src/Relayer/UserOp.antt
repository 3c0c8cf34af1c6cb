-- ===== src/Relayer/UserOp.antt =====
-- src/relayer/erc4337/mod.rs: the packed UserOperation of a job, its hash, and its RPC form.
pub mod Conversion
use agent_execution_platform.Prelude.{
  ℕ, Bool, Option, none, some, List, [], ◌∷◌, ◌++◌, ◌||◌, ltb, length, replicate, if◌then◌else◌,
}
use agent_execution_platform.Prelude.Text.{Text, text, text_eq, is_empty, strip_0x, trim}
use agent_execution_platform.Prelude.Results.{Result, ok, err, or_err, map_err, ◌>>=◌}
use agent_execution_platform.Types.{BatchCall, ExecutionJob, UserOperation}
use agent_execution_platform.Crates.{
  Hex, U256, Ethers, Token, address, uint, fixed_bytes, dynamic_bytes, call_tuples,
  TransactionRequest, Provider,
}
use agent_execution_platform.Relayer.Utils.{
  RelayError, invalid_address, invalid_hex_bytes, batch_empty, invalid_target, invalid_calldata,
  invalid_value, with_0x, parse_hex_u256, parse_hex_bytes, parse_hex_bytes32, pack_two_uint128,
  unpack_two_uint128_from_hex, split_init_code, split_paymaster_and_data,
}

abbrev pub execute_selector : List ℕ
execute_selector = 0xb6 ∷ 0x1d ∷ 0x27 ∷ 0xf6 ∷ []

abbrev pub execute_batch_selector : List ℕ
execute_batch_selector = 0x34 ∷ 0xfc ∷ 0xd5 ∷ 0xbe ∷ []

abbrev pub packed_userop_typehash : List ℕ
packed_userop_typehash =
    0x29 ∷ 0xa0 ∷ 0xbc ∷ 0xa4 ∷ 0xaf ∷ 0x4b ∷ 0xe3 ∷ 0x42 ∷ 0x13 ∷ 0x98 ∷ 0xda ∷ 0x00 ∷ 0x29 ∷ 0x5e
    ∷ 0x58 ∷ 0xe6 ∷ 0xd7 ∷ 0xde ∷ 0x38 ∷ 0xcb ∷ 0x49 ∷ 0x22 ∷ 0x14 ∷ 0x75 ∷ 0x4c ∷ 0xb6 ∷ 0xa4
    ∷ 0x75 ∷ 0x07 ∷ 0xdd ∷ 0x6f ∷ 0x8e ∷ []

abbrev pub eip712_domain_typehash : List ℕ
eip712_domain_typehash =
    0x8b ∷ 0x73 ∷ 0xc3 ∷ 0xc6 ∷ 0x9b ∷ 0xb8 ∷ 0xfe ∷ 0x3d ∷ 0x51 ∷ 0x2e ∷ 0xcc ∷ 0x4c ∷ 0xf7 ∷ 0x59
    ∷ 0xcc ∷ 0x79 ∷ 0x23 ∷ 0x9f ∷ 0x7b ∷ 0x17 ∷ 0x9b ∷ 0x0f ∷ 0xfa ∷ 0xca ∷ 0xa9 ∷ 0xa7 ∷ 0x5d
    ∷ 0x52 ∷ 0x2b ∷ 0x39 ∷ 0x40 ∷ 0x0f ∷ []

abbrev pub eip712_name_hash : List ℕ
eip712_name_hash =
    0x36 ∷ 0x4d ∷ 0xa2 ∷ 0x8a ∷ 0x5c ∷ 0x92 ∷ 0xbc ∷ 0xc8 ∷ 0x7f ∷ 0xe9 ∷ 0x7c ∷ 0x88 ∷ 0x13 ∷ 0xa6
    ∷ 0xc6 ∷ 0xb8 ∷ 0xa3 ∷ 0xa0 ∷ 0x49 ∷ 0xb0 ∷ 0xea ∷ 0x0a ∷ 0x32 ∷ 0x8f ∷ 0xcb ∷ 0x0b ∷ 0x4f
    ∷ 0x0e ∷ 0x00 ∷ 0x33 ∷ 0x75 ∷ 0x86 ∷ []

abbrev pub eip712_version_hash : List ℕ
eip712_version_hash =
    0xc8 ∷ 0x9e ∷ 0xfd ∷ 0xaa ∷ 0x54 ∷ 0xc0 ∷ 0xf2 ∷ 0x0c ∷ 0x7a ∷ 0xdf ∷ 0x61 ∷ 0x28 ∷ 0x82 ∷ 0xdf
    ∷ 0x09 ∷ 0x50 ∷ 0xf5 ∷ 0xa9 ∷ 0x51 ∷ 0x63 ∷ 0x7e ∷ 0x03 ∷ 0x07 ∷ 0xcd ∷ 0xcb ∷ 0x4c ∷ 0x67
    ∷ 0x2f ∷ 0x29 ∷ 0x8b ∷ 0x8b ∷ 0xc6 ∷ []

abbrev pub dummy_user_op_signature : List ℕ
dummy_user_op_signature = replicate 32 0x11 ++ replicate 32 0x22 ++ (0x1b ∷ [])

abbrev pub estimation_verification_gas_limit : ℕ
estimation_verification_gas_limit = 1_000_000

abbrev pub estimation_call_gas_limit : ℕ
estimation_call_gas_limit = 5_000_000

abbrev pub estimation_pre_verification_gas : ℕ
estimation_pre_verification_gas = 300_000

pub record RpcUserOperation : Type 0 where
  pub sender : Text
  pub nonce : Text
  pub factory : Option Text
  pub factory_data : Option Text
  pub call_data : Text
  pub call_gas_limit : Text
  pub verification_gas_limit : Text
  pub pre_verification_gas : Text
  pub max_fee_per_gas : Text
  pub max_priority_fee_per_gas : Text
  pub paymaster : Option Text
  pub paymaster_verification_gas_limit : Option Text
  pub paymaster_post_op_gas_limit : Option Text
  pub paymaster_data : Option Text
  pub paymaster_signature : Option Text
  pub signature : Text

module _ (hex : Hex) (u256 : U256) where
  unfoldable pub apply_gas_fields : UserOperation → ℕ → ℕ → ℕ → ℕ → ℕ → UserOperation
  apply_gas_fields user_op call_gas verification_gas pre_verification_gas max_fee priority_fee =
      record user_op {
        account_gas_limits = with_0x (hex.encode (pack_two_uint128 u256 verification_gas call_gas));
        pre_verification_gas = with_0x (u256.hex_digits pre_verification_gas);
        gas_fees = with_0x (hex.encode (pack_two_uint128 u256 priority_fee max_fee));
      }

  unfoldable pub to_rpc_user_operation : UserOperation → Result RelayError RpcUserOperation
  to_rpc_user_operation op = do
    (verification_gas, call_gas) ← unpack_two_uint128_from_hex hex u256 op.account_gas_limits
    (max_priority_fee, max_fee) ← unpack_two_uint128_from_hex hex u256 op.gas_fees
    (factory, factory_data) ← split_init_code hex op.init_code
    paymaster_fields ← split_paymaster_and_data hex u256 op.paymaster_and_data
    ok (record {
      sender = op.sender;
      nonce = op.nonce;
      factory = factory;
      factory_data = factory_data;
      call_data = op.call_data;
      call_gas_limit = with_0x (u256.hex_digits call_gas);
      verification_gas_limit = with_0x (u256.hex_digits verification_gas);
      pre_verification_gas = op.pre_verification_gas;
      max_fee_per_gas = with_0x (u256.hex_digits max_fee);
      max_priority_fee_per_gas = with_0x (u256.hex_digits max_priority_fee);
      paymaster = paymaster_fields.paymaster;
      paymaster_verification_gas_limit = paymaster_fields.paymaster_verification_gas_limit;
      paymaster_post_op_gas_limit = paymaster_fields.paymaster_post_op_gas_limit;
      paymaster_data = paymaster_fields.paymaster_data;
      paymaster_signature = paymaster_fields.paymaster_signature;
      signature = op.signature;
    })

module _ (hex : Hex) where
  -- The signature as its 65 bytes.
  unfoldable pub apply_signature : UserOperation → List ℕ → UserOperation
  apply_signature user_op signature = record user_op { signature = with_0x (hex.encode signature) }

-- `if value.trim().is_empty() || value.trim() == "0" { 0 } else { from_dec_str }`.
unfoldable pub parse_trimmed_value : U256 → Text → Option ℕ
parse_trimmed_value u256 value =
    if is_empty (trim value) || text_eq (trim value) (text "0")
    then some 0
    else u256.from_dec_str (trim value)

module _ (hex : Hex) (u256 : U256) (eth : Ethers u256) where
  unfoldable pub encode_execute_call : List ℕ → ℕ → List ℕ → List ℕ
  encode_execute_call target value calldata =
      execute_selector
      ++ eth.encode_tokens (address target ∷ uint value ∷ dynamic_bytes calldata ∷ [])

  unfoldable pub encode_call_tuples :
      List BatchCall → Result RelayError (List (List ℕ × ℕ × List ℕ))
  unfolding parse_trimmed_value
  encode_call_tuples [] = ok []
  encode_call_tuples (call ∷ calls) =
      let rest = encode_call_tuples calls in
      do
        target ← or_err (eth.parse_address call.target_contract) invalid_target
        calldata_bytes ← or_err (hex.decode (strip_0x call.calldata)) invalid_calldata
        value ← or_err (parse_trimmed_value u256 call.value) invalid_value
        tuples ← rest
        ok ((target, value, calldata_bytes) ∷ tuples)

  unfoldable pub encode_execute_batch_call : List BatchCall → Result RelayError (List ℕ)
  unfolding encode_call_tuples
  encode_execute_batch_call batch_calls = do
    tuples ← encode_call_tuples batch_calls
    ok (execute_batch_selector ++ eth.encode_tokens (call_tuples tuples ∷ []))

  -- The first statement of `build_user_op_draft`: batch or single call.
  unfoldable pub encode_call_data : ExecutionJob → Result RelayError (List ℕ)
  unfolding encode_execute_call encode_execute_batch_call
  encode_call_data job = elim job.batch_calls [
    | some batch_calls ↦
        if is_empty batch_calls then err batch_empty else encode_execute_batch_call batch_calls
    | none ↦ do
      target ← or_err (eth.parse_address job.target_contract) invalid_address
      calldata_bytes ← or_err (hex.decode (strip_0x job.calldata)) invalid_hex_bytes
      value ←
          (if is_empty job.value || text_eq job.value (text "0")
            then ok 0
            else or_err (u256.from_dec_str job.value) invalid_value)
      ok (encode_execute_call target value calldata_bytes)
  ]

  unfoldable pub compute_user_op_hash : List ℕ → UserOperation → ℕ → Result RelayError (List ℕ)
  compute_user_op_hash entry_point op chain_id = do
    sender ← or_err (eth.parse_address op.sender) invalid_address
    nonce ← parse_hex_u256 u256 op.nonce
    init_code ← parse_hex_bytes hex op.init_code
    call_data ← parse_hex_bytes hex op.call_data
    account_gas_limits ← parse_hex_bytes32 hex op.account_gas_limits
    pre_verification_gas ← parse_hex_u256 u256 op.pre_verification_gas
    gas_fees ← parse_hex_bytes32 hex op.gas_fees
    paymaster_and_data ← parse_hex_bytes hex op.paymaster_and_data
    let struct_hash = eth.keccak256 (
        eth.encode_tokens (
          fixed_bytes packed_userop_typehash
          ∷ address sender
          ∷ uint nonce
          ∷ fixed_bytes (eth.keccak256 init_code)
          ∷ fixed_bytes (eth.keccak256 call_data)
          ∷ fixed_bytes account_gas_limits
          ∷ uint pre_verification_gas
          ∷ fixed_bytes gas_fees
          ∷ fixed_bytes (eth.keccak256 paymaster_and_data)
          ∷ []))
    let domain_separator = eth.keccak256 (
        eth.encode_tokens (
          fixed_bytes eip712_domain_typehash
          ∷ fixed_bytes eip712_name_hash
          ∷ fixed_bytes eip712_version_hash
          ∷ uint chain_id
          ∷ address entry_point
          ∷ []))
    ok (eth.keccak256 (0x19 ∷ 0x01 ∷ domain_separator ++ struct_hash))
