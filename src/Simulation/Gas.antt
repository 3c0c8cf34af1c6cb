-- ===== src/Simulation/Gas.antt =====
-- src/execution_engine/simulation/mod.rs: what a batch that simulates well says about its calls.
use agent_execution_platform.Prelude.{
  ℕ, ◌+◌, ◌-◌, ◌*◌, ◌≤◌, ◌≡◌, refl, ◌∙◌, inl, inr, true, List, [], ◌∷◌, length, Bool-cases, arith,
}
use agent_execution_platform.Prelude.Text.{Text}
use agent_execution_platform.Prelude.Results.{ok, Result-cases}
use agent_execution_platform.Types.{BatchCall, SimulationResult}
use agent_execution_platform.Crates.{Hex, U256, Ethers, Provider, u64_max}
use agent_execution_platform.Simulation.{
  saturating_u64, push, simulate_call, simulate_calls, simulate_batch,
}

abbrev pub sum : List ℕ → ℕ
sum [] = 0
sum (g ∷ gs) = g + sum gs

-- The sum as the loop makes it.
abbrev running : ℕ → List ℕ → ℕ
running total [] = total
running total (g ∷ gs) = running (saturating_u64 (total + g)) gs

saturated_once :
    (t g s : ℕ) → saturating_u64 (saturating_u64 (t + g) + s) ≡ saturating_u64 (t + (g + s))
saturated_once t g s = ground arith

saturated_le : (n : ℕ) → saturating_u64 n ≤ u64_max
saturated_le n = ground arith

saturated_small : (t : ℕ) → t ≤ u64_max → t ≡ saturating_u64 (t + 0)
saturated_small t h = ground arith

running-sum :
    (total : ℕ) (gs : List ℕ) → total ≤ u64_max → running total gs ≡ saturating_u64 (total + sum gs)
running-sum total [] h = saturated_small total h
running-sum total (g ∷ gs) h =
    running-sum (saturating_u64 (total + g)) gs (saturated_le (total + g))
    ∙ saturated_once total g (sum gs)

module _ {C : Type 0} (hex : Hex) (u256 : U256) (eth : Ethers u256) (provider : Provider C)
    (from_address : List ℕ) (decimal : ℕ → Text) where
  -- Each call, from the state that the calls before it leave, simulates well with its gas.
  abbrev pub AllSucceed : ℕ → List BatchCall → C → List ℕ → Type 0
  AllSucceed i [] c gases = gases ≡ []
  AllSucceed i (call ∷ calls) c gases =
      (sim : SimulationResult) × (rest : List ℕ) × ((simulate_call hex u256 eth provider
          from_address decimal i call c).0
        ≡ ok sim)
      × (sim.success ≡ true)
      × (gases ≡ sim.gas_estimate ∷ rest)
      × AllSucceed (i + 1) calls
          (simulate_call hex u256 eth provider from_address decimal i call c).1 rest

  calls_succeed :
      (i total : ℕ) (datas : List Text) (calls : List BatchCall) (c : C) (result : SimulationResult)
      → (simulate_calls hex u256 eth provider from_address decimal i total datas calls c).0
        ≡ ok result
      → result.success ≡ true
      → (gases : List ℕ) × AllSucceed i calls c gases × (result.gas_estimate ≡ running total gases)
  unfolding simulate_calls
  calls_succeed i total datas [] c result h success = ([], refl, ground arith)
  calls_succeed i total datas (call ∷ calls) c result h success =
      elim (Result-cases (simulate_call hex u256 eth provider from_address decimal i call c).0) [
        | inr (e, q) ↦ absurd (ground arith)
        | inl (sim, q) ↦ elim (Bool-cases sim.success) [
          | inr failed ↦ absurd (ground arith)
          | inl well ↦
              let (gases, all, total_is) =
                calls_succeed (i + 1) (saturating_u64 (total + sim.gas_estimate))
                  (push sim.return_data datas) calls
                  (simulate_call hex u256 eth provider from_address decimal i call c).1 result
                  (ground arith) success in
              (sim.gas_estimate ∷ gases, (sim, gases, q, well, refl, all), total_is)
        ]
      ]

  -- A batch that simulates well has calls that all simulate well, one after the other, and its gas
  -- is the sum of theirs with 5000 for each call after the first, or the largest u64 if that is
  -- smaller.
  pub simulate_batch_lem :
      (calls : List BatchCall) (c : C) (result : SimulationResult)
      → (simulate_batch hex u256 eth provider from_address decimal calls c).0 ≡ ok result
      → result.success ≡ true
      → (gases : List ℕ) × AllSucceed 0 calls c gases
        × (result.gas_estimate ≡ saturating_u64 (sum gases + (length calls - 1) * 5_000))
  unfolding simulate_batch
  simulate_batch_lem calls c result h success =
      elim (Result-cases
        (simulate_calls hex u256 eth provider from_address decimal 0 0 [] calls c).0) [
          | inr (e, q) ↦ absurd (ground arith)
          | inl (sim, q) ↦ elim (Bool-cases sim.success) [
            | inr failed ↦ absurd (ground arith)
            | inl well ↦
                let (gases, all, total_is) = calls_succeed 0 0 [] calls c sim q well in
                (
                  gases,
                  all,
                  with_overhead sim.gas_estimate (sum gases) ((length calls - 1) * 5_000)
                      result.gas_estimate (total_is ∙ running-sum 0 gases (omega arith))
                      (ground arith),
                )
          ]
        ]
    where
      with_overhead :
          (g s o r : ℕ)
          → g ≡ saturating_u64 (0 + s)
          → r ≡ saturating_u64 (g + o)
          → r ≡ saturating_u64 (s + o)
      with_overhead g s o r p q = ground arith
