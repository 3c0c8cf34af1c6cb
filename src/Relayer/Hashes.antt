-- ===== src/Relayer/Hashes.antt =====
-- The hashes that a UserOperation is signed by, as the contracts compute them: `getHash` of the
-- paymaster, for src/relayer/paymaster/mod.rs, and the EIP-712 hash of the entry point, for
-- src/relayer/erc4337/mod.rs. Each names every field of the operation that it covers.
use agent_execution_platform.Prelude.{ℕ, ◌≡◌, sym, some, List, [], ◌∷◌, ◌++◌, arith}
use agent_execution_platform.Prelude.Results.{ok, or_err, bind_ok, ok_inj}
use agent_execution_platform.Prelude.Text.{Text}
use agent_execution_platform.Types.{UserOperation}
use agent_execution_platform.Crates.{Hex, U256, Ethers, address, uint, fixed_bytes}
use agent_execution_platform.Relayer.Utils.{
  invalid_address, parse_hex_u256, parse_hex_bytes, parse_hex_bytes32,
}
use agent_execution_platform.Relayer.UserOp.{
  packed_userop_typehash, eip712_domain_typehash, eip712_name_hash, eip712_version_hash,
  compute_user_op_hash,
}
use agent_execution_platform.Relayer.Sponsor.{PaymasterSigner, compute_paymaster_hash}

module _ (hex : Hex) (u256 : U256) (eth : Ethers u256) where
  read_address :
      (t : Text) (a : List ℕ)
      → or_err (eth.parse_address t) invalid_address ≡ ok a
      → eth.parse_address t ≡ some a
  read_address t a h = ground arith

  -- The sender, the nonce, the codes, the gas and the fees of the operation, the chain, the
  -- paymaster and the window, in this order.
  abbrev pub IsPaymasterHash : PaymasterSigner → UserOperation → ℕ → ℕ → ℕ → List ℕ → Type 0
  IsPaymasterHash signer op chain_id valid_until valid_after hash =
      (sender : List ℕ) × (nonce : ℕ) × (init_code call_data gas_limits : List ℕ)
      × (pre_verification_gas : ℕ) × (fees : List ℕ) × (eth.parse_address op.sender ≡ some sender)
      × (parse_hex_u256 u256 op.nonce ≡ ok nonce)
      × (parse_hex_bytes hex op.init_code ≡ ok init_code)
      × (parse_hex_bytes hex op.call_data ≡ ok call_data)
      × (parse_hex_bytes hex op.account_gas_limits ≡ ok gas_limits)
      × (parse_hex_u256 u256 op.pre_verification_gas ≡ ok pre_verification_gas)
      × (parse_hex_bytes hex op.gas_fees ≡ ok fees)
      × (hash
          ≡ eth.keccak256 (
              eth.encode_tokens (
                address sender
                ∷ uint nonce
                ∷ fixed_bytes (eth.keccak256 init_code)
                ∷ fixed_bytes (eth.keccak256 call_data)
                ∷ fixed_bytes (eth.keccak256 gas_limits)
                ∷ uint pre_verification_gas
                ∷ fixed_bytes (eth.keccak256 fees)
                ∷ uint chain_id
                ∷ address signer.paymaster_address
                ∷ uint valid_until
                ∷ uint valid_after
                ∷ [])))

  pub compute_paymaster_hash-IsPaymasterHash :
      (signer : PaymasterSigner) (op : UserOperation) (chain_id valid_until valid_after : ℕ)
      (hash : List ℕ)
      → compute_paymaster_hash hex u256 eth signer op chain_id valid_until valid_after ≡ ok hash
      → IsPaymasterHash signer op chain_id valid_until valid_after hash
  unfolding compute_paymaster_hash
  compute_paymaster_hash-IsPaymasterHash signer op chain_id valid_until valid_after hash h =
      let (sender, e1, h1) = bind_ok (or_err (eth.parse_address op.sender) invalid_address) _ h in
      let (nonce, e2, h2) = bind_ok (parse_hex_u256 u256 op.nonce) _ h1 in
      let (init_code, e3, h3) = bind_ok (parse_hex_bytes hex op.init_code) _ h2 in
      let (call_data, e4, h4) = bind_ok (parse_hex_bytes hex op.call_data) _ h3 in
      let (gas_limits, e5, h5) = bind_ok (parse_hex_bytes hex op.account_gas_limits) _ h4 in
      let (gas, e6, h6) = bind_ok (parse_hex_u256 u256 op.pre_verification_gas) _ h5 in
      let (fees, e7, h7) = bind_ok (parse_hex_bytes hex op.gas_fees) _ h6 in
      (
        sender,
        nonce,
        init_code,
        call_data,
        gas_limits,
        gas,
        fees,
        read_address op.sender sender e1,
        e2,
        e3,
        e4,
        e5,
        e6,
        e7,
        sym (ok_inj _ hash h7),
      )

  -- The same fields, packed, with the paymaster's data, under the domain of the entry point.
  abbrev pub IsUserOpHash : List ℕ → UserOperation → ℕ → List ℕ → Type 0
  IsUserOpHash entry_point op chain_id hash =
      (sender : List ℕ) × (nonce : ℕ) × (init_code call_data gas_limits : List ℕ)
      × (pre_verification_gas : ℕ) × (fees paymaster_and_data : List ℕ) × (eth.parse_address
            op.sender
          ≡ some sender)
      × (parse_hex_u256 u256 op.nonce ≡ ok nonce)
      × (parse_hex_bytes hex op.init_code ≡ ok init_code)
      × (parse_hex_bytes hex op.call_data ≡ ok call_data)
      × (parse_hex_bytes32 hex op.account_gas_limits ≡ ok gas_limits)
      × (parse_hex_u256 u256 op.pre_verification_gas ≡ ok pre_verification_gas)
      × (parse_hex_bytes32 hex op.gas_fees ≡ ok fees)
      × (parse_hex_bytes hex op.paymaster_and_data ≡ ok paymaster_and_data)
      × (hash
          ≡ eth.keccak256 (
              0x19
                ∷ 0x01
                ∷ eth.keccak256 (
                    eth.encode_tokens (
                      fixed_bytes eip712_domain_typehash
                      ∷ fixed_bytes eip712_name_hash
                      ∷ fixed_bytes eip712_version_hash
                      ∷ uint chain_id
                      ∷ address entry_point
                      ∷ []))
              ++ eth.keccak256 (
                  eth.encode_tokens (
                    fixed_bytes packed_userop_typehash
                    ∷ address sender
                    ∷ uint nonce
                    ∷ fixed_bytes (eth.keccak256 init_code)
                    ∷ fixed_bytes (eth.keccak256 call_data)
                    ∷ fixed_bytes gas_limits
                    ∷ uint pre_verification_gas
                    ∷ fixed_bytes fees
                    ∷ fixed_bytes (eth.keccak256 paymaster_and_data)
                    ∷ []))))

  pub compute_user_op_hash-IsUserOpHash :
      (entry_point : List ℕ) (op : UserOperation) (chain_id : ℕ) (hash : List ℕ)
      → compute_user_op_hash hex u256 eth entry_point op chain_id ≡ ok hash
      → IsUserOpHash entry_point op chain_id hash
  unfolding compute_user_op_hash
  compute_user_op_hash-IsUserOpHash entry_point op chain_id hash h =
      let (sender, e1, h1) = bind_ok (or_err (eth.parse_address op.sender) invalid_address) _ h in
      let (nonce, e2, h2) = bind_ok (parse_hex_u256 u256 op.nonce) _ h1 in
      let (init_code, e3, h3) = bind_ok (parse_hex_bytes hex op.init_code) _ h2 in
      let (call_data, e4, h4) = bind_ok (parse_hex_bytes hex op.call_data) _ h3 in
      let (gas_limits, e5, h5) = bind_ok (parse_hex_bytes32 hex op.account_gas_limits) _ h4 in
      let (gas, e6, h6) = bind_ok (parse_hex_u256 u256 op.pre_verification_gas) _ h5 in
      let (fees, e7, h7) = bind_ok (parse_hex_bytes32 hex op.gas_fees) _ h6 in
      let (sponsorship, e8, h8) = bind_ok (parse_hex_bytes hex op.paymaster_and_data) _ h7 in
      (
        sender,
        nonce,
        init_code,
        call_data,
        gas_limits,
        gas,
        fees,
        sponsorship,
        read_address op.sender sender e1,
        e2,
        e3,
        e4,
        e5,
        e6,
        e7,
        e8,
        sym (ok_inj _ hash h8),
      )
