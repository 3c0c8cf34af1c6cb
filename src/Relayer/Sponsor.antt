-- ===== src/Relayer/Sponsor.antt =====
-- src/relayer/paymaster/mod.rs: the signed paymaster data of a UserOperation.
pub mod Layout
use agent_execution_platform.Prelude.{ℕ, ◌+◌, ◌-◌, ◌%◌, List, [], ◌∷◌, ◌++◌, drop, replicate}
use agent_execution_platform.Prelude.Results.{Result, ok, err, or_err, ◌>>=◌}
use agent_execution_platform.Types.{UserOperation}
use agent_execution_platform.Crates.{
  Hex, U256, Ethers, Token, address, uint, fixed_bytes, u64_bound,
}
use agent_execution_platform.Relayer.Utils.{
  RelayError, invalid_address, parse_hex_u256, parse_hex_bytes,
}

abbrev pub clock_skew_grace_secs : ℕ
clock_skew_grace_secs = 30

-- `signing_key` is ethers' `sign_message`, which may fail, with the 65 bytes of the signature.
pub record PaymasterSigner : Type 0 where
  pub paymaster_address : List ℕ
  pub signing_key : List ℕ → Result RelayError (List ℕ)
  pub validity_window_secs : ℕ
  pub pm_verification_gas_limit : ℕ
  pub pm_post_op_gas_limit : ℕ

-- `PaymasterSigner::new`, after the key has been parsed.
abbrev pub new : List ℕ → (List ℕ → Result RelayError (List ℕ)) → ℕ → PaymasterSigner
new paymaster_address signing_key validity_window_secs = record {
  paymaster_address = paymaster_address;
  signing_key = signing_key;
  validity_window_secs = validity_window_secs;
  pm_verification_gas_limit = 100_000;
  pm_post_op_gas_limit = 50_000;
}

module _ (u256 : U256) where
  unfoldable pub dummy_paymaster_and_data : PaymasterSigner → List ℕ
  dummy_paymaster_and_data signer =
      signer.paymaster_address
      ++ drop 16 (u256.to_big_endian signer.pm_verification_gas_limit)
      ++ drop 16 (u256.to_big_endian signer.pm_post_op_gas_limit)
      ++ replicate (64 + 65) 0

module _ (hex : Hex) (u256 : U256) (eth : Ethers u256) where
  unfoldable pub compute_paymaster_hash :
      PaymasterSigner → UserOperation → ℕ → ℕ → ℕ → Result RelayError (List ℕ)
  compute_paymaster_hash signer op chain_id valid_until valid_after = do
    sender ← or_err (eth.parse_address op.sender) invalid_address
    nonce ← parse_hex_u256 u256 op.nonce
    init_code ← parse_hex_bytes hex op.init_code
    call_data ← parse_hex_bytes hex op.call_data
    account_gas_limits ← parse_hex_bytes hex op.account_gas_limits
    pre_verification_gas ← parse_hex_u256 u256 op.pre_verification_gas
    gas_fees ← parse_hex_bytes hex op.gas_fees
    ok (
        eth.keccak256 (
          eth.encode_tokens (
            address sender
            ∷ uint nonce
            ∷ fixed_bytes (eth.keccak256 init_code)
            ∷ fixed_bytes (eth.keccak256 call_data)
            ∷ fixed_bytes (eth.keccak256 account_gas_limits)
            ∷ uint pre_verification_gas
            ∷ fixed_bytes (eth.keccak256 gas_fees)
            ∷ uint chain_id
            ∷ address signer.paymaster_address
            ∷ uint valid_until
            ∷ uint valid_after
            ∷ [])))

  -- `now` is the seconds of the Unix clock. The sum is of two u64, and wraps as in a release build.
  unfoldable pub sign_paymaster_data :
      PaymasterSigner → ℕ → UserOperation → ℕ → Result RelayError (List ℕ)
  unfolding compute_paymaster_hash
  sign_paymaster_data signer now user_op chain_id = do
    let valid_after = now - clock_skew_grace_secs
    let valid_until = (now + signer.validity_window_secs) % u64_bound
    hash ← compute_paymaster_hash signer user_op chain_id valid_until valid_after
    signature ← signer.signing_key hash
    let time_params = eth.encode_tokens (uint valid_until ∷ uint valid_after ∷ [])
    ok (
        signer.paymaster_address
        ++ drop 16 (u256.to_big_endian signer.pm_verification_gas_limit)
        ++ drop 16 (u256.to_big_endian signer.pm_post_op_gas_limit)
        ++ time_params
        ++ signature)
