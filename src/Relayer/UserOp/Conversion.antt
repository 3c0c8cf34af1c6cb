-- ===== src/Relayer/UserOp/Conversion.antt =====
-- src/relayer/erc4337/mod.rs: what the bundler is sent for an operation with its gas applied.
use agent_execution_platform.Prelude.{ℕ, ◌<◌, ◌≡◌}
use agent_execution_platform.Prelude.Results.{ok, ◌>>=◌}
use agent_execution_platform.Types.{UserOperation}
use agent_execution_platform.Crates.{Hex, U256, u128_bound}
use agent_execution_platform.Relayer.Utils.{with_0x, split_init_code, split_paymaster_and_data}
use agent_execution_platform.Relayer.Utils.Packing.{unpack-pack_two_uint128}
use agent_execution_platform.Relayer.UserOp.{apply_gas_fields, to_rpc_user_operation}

module _ (hex : Hex) (u256 : U256) where
  -- The gas that was applied is the gas that the bundler is sent, each limit and fee in its own
  -- field, for limits and fees below 2 ^ 128; the other fields are the operation's, and the
  -- conversion fails exactly where the initialisation code or the paymaster data does not split.
  pub to_rpc_user_operation-apply_gas_fields :
      (op : UserOperation) (call_gas verification_gas pre_verification_gas max_fee priority_fee : ℕ)
      → call_gas < u128_bound
      → verification_gas < u128_bound
      → max_fee < u128_bound
      → priority_fee < u128_bound
      → to_rpc_user_operation hex u256 (
          apply_gas_fields hex u256 op call_gas verification_gas pre_verification_gas max_fee
            priority_fee)
        ≡ (split_init_code hex op.init_code >>= λ init.
            split_paymaster_and_data hex u256 op.paymaster_and_data >>= λ fields. ok (record {
              sender = op.sender;
              nonce = op.nonce;
              factory = init.0;
              factory_data = init.1;
              call_data = op.call_data;
              call_gas_limit = with_0x (u256.hex_digits call_gas);
              verification_gas_limit = with_0x (u256.hex_digits verification_gas);
              pre_verification_gas = with_0x (u256.hex_digits pre_verification_gas);
              max_fee_per_gas = with_0x (u256.hex_digits max_fee);
              max_priority_fee_per_gas = with_0x (u256.hex_digits priority_fee);
              paymaster = fields.paymaster;
              paymaster_verification_gas_limit = fields.paymaster_verification_gas_limit;
              paymaster_post_op_gas_limit = fields.paymaster_post_op_gas_limit;
              paymaster_data = fields.paymaster_data;
              paymaster_signature = fields.paymaster_signature;
              signature = op.signature;
            }))
  unfolding to_rpc_user_operation apply_gas_fields
  to_rpc_user_operation-apply_gas_fields op c v pre m p c_fits v_fits m_fits p_fits = rw (
    unpack-pack_two_uint128 hex u256 v c v_fits c_fits,
    unpack-pack_two_uint128 hex u256 p m p_fits m_fits,
  )
