-- ===== src/Simulation.antt =====
-- src/execution_engine/simulation/mod.rs: the simulation of a call and of a batch against a node.
pub mod Gas
use agent_execution_platform.Prelude.{
  ℕ, ◌+◌, ◌-◌, ◌*◌, Bool, true, false, Option, none, some, List, [], ◌∷◌, ◌++◌, ltb, length,
  if◌then◌else◌,
}
use agent_execution_platform.Prelude.Text.{Text, text, strip_0x}
use agent_execution_platform.Prelude.Results.{Result, ok, err, or_err}
use agent_execution_platform.Prelude.Actions.{Action, pure, raise, lift, ◌>>=◌}
use agent_execution_platform.Types.{BatchCall, SimulationResult}
use agent_execution_platform.Crates.{Hex, U256, Ethers, Provider, TransactionRequest, u64_max}
use agent_execution_platform.Relayer.UserOp.{parse_trimmed_value}

-- `invalid_call` with the index of the call in the batch; `panicked` is `as_u64` on a larger number.
pub data SimulationError : Type 0 where
  invalid_target invalid_calldata invalid_value : ℕ → SimulationError
  panicked : SimulationError

abbrev pub saturating_u64 : ℕ → ℕ
saturating_u64 n = if ltb u64_max n then u64_max else n

abbrev unsuccessful : Option Text → Text → SimulationResult
unsuccessful return_data error = record {
  success = false;
  gas_estimate = 0;
  return_data = return_data;
  error = some error;
}

abbrev or_empty : Option Text → Text
or_empty none = []
or_empty (some t) = t

-- `join(",")`.
abbrev join : List Text → Text
join [] = []
join (t ∷ []) = t
join (t ∷ u ∷ ts) = t ++ text "," ++ join (u ∷ ts)

abbrev pub push : Option Text → List Text → List Text
push none ts = ts
push (some t) ts = ts ++ (t ∷ [])

module _ {C : Type 0} (hex : Hex) (u256 : U256) (eth : Ethers u256) (provider : Provider C)
    (from_address : List ℕ) (decimal : ℕ → Text) where
  -- The estimate of a call that went through.
  estimated : Text → Result Text ℕ → Result SimulationError SimulationResult
  estimated returned (err e) =
      ok (unsuccessful (some returned) (text "gas estimation failed: " ++ e))
  estimated returned (ok gas) =
      if ltb u64_max gas
      then err panicked
      else ok
          (record { success = true; gas_estimate = gas; return_data = some returned; error = none })

  dry_run : TransactionRequest → Result Text (List ℕ) → Action C SimulationError SimulationResult
  unfolding estimated
  dry_run tx (err e) c = (ok (unsuccessful none (text "simulation reverted: " ++ e)), c)
  dry_run tx (ok bytes) c =
      let (answer, c') = provider.estimate_gas tx c in
      (estimated (text "0x" ++ hex.encode bytes) answer, c')

  unfoldable pub simulate_transaction :
      List ℕ → List ℕ → ℕ → Action C SimulationError SimulationResult
  unfolding dry_run
  simulate_transaction target calldata value c =
      let tx : TransactionRequest = record {
        from = some from_address;
        to = target;
        calldata = calldata;
        value = some value;
      } in
      let (answer, c') = provider.call tx c in dry_run tx answer c'

  -- One call of a batch, at its index.
  unfoldable pub simulate_call : ℕ → BatchCall → Action C SimulationError SimulationResult
  unfolding simulate_transaction
  simulate_call i call = do
    target ← lift (or_err (eth.parse_address call.target_contract) (invalid_target i))
    calldata ← lift (or_err (hex.decode (strip_0x call.calldata)) (invalid_calldata i))
    value ← lift (or_err (parse_trimmed_value u256 call.value) (invalid_value i))
    simulate_transaction target calldata value

  -- The loop, with the sum and the data so far; the first call that fails ends it.
  after_call :
      ℕ
      → ℕ
      → List Text
      → (ℕ → List Text → Action C SimulationError SimulationResult)
      → SimulationResult
      → Action C SimulationError SimulationResult
  after_call i total datas go_on sim =
      if sim.success
      then go_on (saturating_u64 (total + sim.gas_estimate)) (push sim.return_data datas)
      else pure (
          unsuccessful none
            (text "batch_calls[" ++ decimal i ++ text "] reverted: " ++ or_empty sim.error))

  unfoldable pub simulate_calls :
      ℕ → ℕ → List Text → List BatchCall → Action C SimulationError SimulationResult
  unfolding simulate_call after_call
  simulate_calls i total datas [] = pure (record {
    success = true;
    gas_estimate = total;
    return_data = some (text "[" ++ join datas ++ text "]");
    error = none;
  })
  simulate_calls i total datas (call ∷ calls) =
      simulate_call i call
      >>= after_call i total datas (λ total datas. simulate_calls (i + 1) total datas calls)

  abbrev pub add_overhead : ℕ → SimulationResult → SimulationResult
  add_overhead calls sim =
      if sim.success
      then record sim { gas_estimate = saturating_u64 (sim.gas_estimate + (calls - 1) * 5_000) }
      else sim

  unfoldable pub simulate_batch : List BatchCall → Action C SimulationError SimulationResult
  unfolding simulate_calls
  simulate_batch batch_calls = do
    sim ← simulate_calls 0 0 [] batch_calls
    pure (add_overhead (length batch_calls) sim)
