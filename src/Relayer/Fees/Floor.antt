-- ===== src/Relayer/Fees/Floor.antt =====
-- src/relayer/erc4337/mod.rs: bounds on the gas prices.
use agent_execution_platform.Prelude.{ℕ, ◌+◌, ◌*◌, ◌≤◌, ◌≡◌, Option, none, some, arith, inl, inr}
use mathlib.Core.Path.{subst}
use agent_execution_platform.Prelude.Text.{Text}
use agent_execution_platform.Prelude.Results.{Result, ok, ok_inj, Result-cases}
use agent_execution_platform.Prelude.Actions.{Action}
use agent_execution_platform.Crates.{U256, Provider}
use agent_execution_platform.Relayer.Utils.{RelayError}
use agent_execution_platform.Relayer.Answers.{JsonRpcResponse, VoltaireFeesPerGas, read_fees}
use agent_execution_platform.Relayer.Fees.{saturate, raise_to_floor, cap_priority, get_gas_prices}

-- The floor that a block sets for a maximum fee with this priority fee.
abbrev pub Floor : Option (Option ℕ) → ℕ → ℕ → Type 0
Floor none max_fee priority = Unit
Floor (some none) max_fee priority = Unit
Floor (some (some base_fee)) max_fee priority =
    saturate (saturate (base_fee * 2) + priority) ≤ max_fee

raised-Floor :
    (block : Option (Option ℕ)) (max_fee priority : ℕ)
    → Floor block
        (raise_to_floor block max_fee priority)
        (cap_priority (raise_to_floor block max_fee priority) priority)
unfolding raise_to_floor cap_priority
raised-Floor none m p = tt
raised-Floor (some none) m p = tt
raised-Floor (some (some base)) m p = ground arith

raised_le : (block : Option (Option ℕ)) (m p : ℕ) → m ≤ raise_to_floor block m p
unfolding raise_to_floor
raised_le none m p = omega arith
raised_le (some none) m p = omega arith
raised_le (some (some base)) m p = ground arith

capped_le : (m p : ℕ) → cap_priority m p ≤ m
unfolding cap_priority
capped_le m p = ground arith

read_fees_positive :
    (u256 : U256) (response : JsonRpcResponse VoltaireFeesPerGas) (m p : ℕ)
    → read_fees u256 response ≡ ok (m, p)
    → 1 ≤ m
unfolding read_fees
read_fees_positive u256 response m p h = ground arith

positive : (block : Option (Option ℕ)) (m p : ℕ) → 1 ≤ m → 1 ≤ raise_to_floor block m p
positive block m p h = omega (arith, raised_le block m p)

module _ {C : Type 0} (u256 : U256) (provider : Provider C)
    (voltaire : Action C Text (JsonRpcResponse VoltaireFeesPerGas)) where
  -- Prices that are returned are usable: the priority fee is at most the maximum fee, the maximum
  -- fee is not zero, and it is at least the floor that the latest block sets.
  pub get_gas_prices-Floor :
      (s : C) (max_fee priority_fee : ℕ)
      → (get_gas_prices u256 provider voltaire s).0 ≡ ok (max_fee, priority_fee)
      → (priority_fee ≤ max_fee)
        × (1 ≤ max_fee)
        × ((block : Option (Option ℕ)) × ((provider.latest_base_fee (voltaire s).1).0 ≡ ok block)
            × Floor block max_fee priority_fee)
  unfolding get_gas_prices
  get_gas_prices-Floor s max_fee priority_fee h = elim (Result-cases (voltaire s).0) [
    | inr (e, q) ↦ absurd (ground arith)
    | inl (response, q) ↦ elim (Result-cases (read_fees u256 response)) [
      | inr (e, q2) ↦ absurd (ground arith)
      | inl ((m, p), q2) ↦ elim (Result-cases (provider.latest_base_fee (voltaire s).1).0) [
        | inr (e, q3) ↦ absurd (ground arith)
        | inl (block, q3) ↦
            let raised = raise_to_floor block m p in
            let same : ◌≡◌ {A = Result RelayError (ℕ × ℕ)} (ok (raised, cap_priority raised p))
                (ok (max_fee, priority_fee)) =
              ground arith in
            subst
              (λ fees.
                (fees.1 ≤ fees.0)
                × (1 ≤ fees.0)
                × ((b : Option (Option ℕ)) × ((provider.latest_base_fee (voltaire s).1).0 ≡ ok b)
                    × Floor b fees.0 fees.1))
              (ok_inj (raised, cap_priority raised p) (max_fee, priority_fee) same)
              (
                capped_le raised p,
                positive block m p (read_fees_positive u256 response m p q2),
                (block, q3, raised-Floor block m p),
              )
      ]
    ]
  ]
