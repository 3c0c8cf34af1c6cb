-- ===== src/Tests/SimulationRuns.antt =====
-- The simulation of src/execution_engine/simulation/mod.rs of a batch of two calls.
use agent_execution_platform.Prelude.{ℕ, ◌+◌, ◌-◌, ◌*◌, ◌≡◌, refl, true, none, some, List, [], ◌∷◌}
use agent_execution_platform.Prelude.Text.{text, trim}
use agent_execution_platform.Prelude.Results.{ok}
use agent_execution_platform.Types.{BatchCall, SimulationResult}
use agent_execution_platform.Relayer.UserOp.{parse_trimmed_value}
use agent_execution_platform.Simulation.{saturating_u64, simulate_call, simulate_batch}
use agent_execution_platform.Simulation.Gas.{sum, AllSucceed, simulate_batch_lem}
use agent_execution_platform.Tests.CrateFixtures.{hex, u256, eth, decode, encode}
use agent_execution_platform.Tests.RelayerRuns.{node}

abbrev transfer : BatchCall
transfer = record {
  target_contract = text "0x1111111111111111111111111111111111111111";
  calldata = text "0xa9059cbb";
  value = text "0";
}

abbrev two_transfers : SimulationResult
two_transfers = record {
  success = true;
  gas_estimate = 47_000;
  return_data = some (text "[0x,0x]");
  error = none;
}

both_succeed :
    (simulate_batch hex u256 eth node (1 ∷ []) (λ n. n ∷ []) (transfer ∷ transfer ∷ []) 0).0
    ≡ ok two_transfers
unfolding simulate_batch simulate_call decode parse_trimmed_value trim encode
both_succeed = refl

simulate_batch_lem_example :
    (gases : List ℕ) × AllSucceed hex u256 eth node
      (1 ∷ [])
      (λ n. n ∷ [])
      0
      (transfer ∷ transfer ∷ [])
      0
      gases
    × (two_transfers.gas_estimate ≡ saturating_u64 (sum gases + (2 - 1) * 5_000))
simulate_batch_lem_example =
    simulate_batch_lem hex u256 eth node (1 ∷ []) (λ n. n ∷ []) (transfer ∷ transfer ∷ []) 0
      two_transfers both_succeed refl
