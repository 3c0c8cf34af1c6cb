-- ===== src/Relayer/Utils.antt =====
-- src/relayer/utils.rs, and the packing helpers of src/relayer/erc4337/mod.rs.
pub mod Packing
use agent_execution_platform.Prelude.{
  ℕ, ◌-◌, Option, none, some, List, [], ◌∷◌, ◌++◌, Bool, length, take, drop, replicate, leb, ltb,
  if◌then◌else◌,
}
use agent_execution_platform.Prelude.Text.{Text, text, is_empty, strip_0x}
use agent_execution_platform.Prelude.Results.{Result, ok, err, or_err, fail_if, ◌>>=◌, ◌>>◌}
use agent_execution_platform.Crates.{Hex, U256}

-- The errors of the relayer's conversions, one for each message.
pub data RelayError : Type 0 where
  invalid_hex_u256 invalid_hex_bytes invalid_address : RelayError
  bytes32_too_long init_code_too_short paymaster_and_data_too_short : RelayError
  batch_empty invalid_target invalid_calldata invalid_value : RelayError
  zero_max_fee invalid_fee invalid_estimate invalid_gas : RelayError
  out_of_fuel : RelayError
  -- The bundler answered without a result, with what its error says.
  rejected : Text → RelayError
  rpc_failed : Text → RelayError
  -- A panic of the process: `from_big_endian` on more than 32 bytes, `as_u64` on a larger number.
  panicked : RelayError

-- `format!("0x{}", digits)`.
abbrev pub with_0x : Text → Text
with_0x digits = text "0x" ++ digits

module _ (u256 : U256) where
  unfoldable pub parse_hex_u256 : Text → Result RelayError ℕ
  parse_hex_u256 s =
      let stripped = strip_0x s in
      if is_empty stripped then ok 0 else or_err (u256.from_str_radix_16 stripped) invalid_hex_u256

  -- Each number is cut to its low sixteen bytes.
  unfoldable pub pack_two_uint128 : ℕ → ℕ → List ℕ
  pack_two_uint128 high low = drop 16 (u256.to_big_endian high) ++ drop 16 (u256.to_big_endian low)

  -- A number from the big-endian bytes that fill a buffer of zeros from byte 16 on.
  unfoldable pub read_uint128 : List ℕ → ℕ
  read_uint128 bytes = u256.from_big_endian (replicate 16 0 ++ bytes)

module _ (hex : Hex) where
  unfoldable pub parse_hex_bytes : Text → Result RelayError (List ℕ)
  parse_hex_bytes s =
      let stripped = strip_0x s in
      if is_empty stripped then ok [] else or_err (hex.decode stripped) invalid_hex_bytes

  unfoldable pub parse_hex_bytes32 : Text → Result RelayError (List ℕ)
  unfolding parse_hex_bytes
  parse_hex_bytes32 s = do
    bytes ← parse_hex_bytes s
    if is_empty bytes
        then ok (replicate 32 0)
        else if leb (length bytes) 32
        then ok (replicate (32 - length bytes) 0 ++ bytes)
        else err bytes32_too_long

module _ (hex : Hex) (u256 : U256) where
  unfoldable pub unpack_two_uint128_from_hex : Text → Result RelayError (ℕ × ℕ)
  unfolding parse_hex_bytes32 read_uint128
  unpack_two_uint128_from_hex s = do
    packed ← parse_hex_bytes32 hex s
    ok (read_uint128 u256 (take 16 packed), read_uint128 u256 (take 16 (drop 16 packed)))

module _ (hex : Hex) where
  unfoldable pub split_init_code : Text → Result RelayError (Option Text × Option Text)
  unfolding parse_hex_bytes
  split_init_code init_code_hex = do
    init_code ← parse_hex_bytes hex init_code_hex
    if is_empty init_code
        then ok (none, none)
        else if ltb (length init_code) 20
        then err init_code_too_short
        else ok (
          some (with_0x (hex.encode (take 20 init_code))),
          some (with_0x (hex.encode (drop 20 init_code))),
        )

pub record RpcPaymasterFields : Type 0 where
  pub paymaster : Option Text
  pub paymaster_verification_gas_limit : Option Text
  pub paymaster_post_op_gas_limit : Option Text
  pub paymaster_data : Option Text
  pub paymaster_signature : Option Text

module _ (hex : Hex) (u256 : U256) where
  unfoldable pub split_paymaster_and_data : Text → Result RelayError RpcPaymasterFields
  unfolding parse_hex_bytes read_uint128
  split_paymaster_and_data paymaster_and_data_hex = do
    bytes ← parse_hex_bytes hex paymaster_and_data_hex
    if is_empty bytes
        then ok (record {
          paymaster = none;
          paymaster_verification_gas_limit = none;
          paymaster_post_op_gas_limit = none;
          paymaster_data = none;
          paymaster_signature = none;
        })
        else if ltb (length bytes) 52
        then err paymaster_and_data_too_short
        else ok (record {
          paymaster = some (with_0x (hex.encode (take 20 bytes)));
          paymaster_verification_gas_limit =
              some (with_0x (u256.hex_digits (read_uint128 u256 (take 16 (drop 20 bytes)))));
          paymaster_post_op_gas_limit =
              some (with_0x (u256.hex_digits (read_uint128 u256 (take 16 (drop 36 bytes)))));
          paymaster_data = some (with_0x (hex.encode (drop 52 bytes)));
          paymaster_signature = none;
        })
