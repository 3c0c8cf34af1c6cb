-- ===== src/Protocols/AaveV3/Accepted.antt =====
-- src/protocols/aave_v3/adapter.rs: the compiled requests, before the engine.
use mathlib.Core.Path.{sym, ◌∙◌}
use agent_execution_platform.Prelude.{ℕ, ◌≤◌, ◌≡◌, ◌↔◌, Bool, true, Option, some, List, arith}
use agent_execution_platform.Prelude.Text.{Text, byte_len}
use agent_execution_platform.Prelude.Results.{Result, ok}
use agent_execution_platform.Types.{Chain, ethereum, ExecutionRequest}
use agent_execution_platform.Crates.{Hex, U256, Ethers, IsAddress}
use agent_execution_platform.Engine.{validate}
use agent_execution_platform.Protocols.Amounts.{ProtocolError}
use agent_execution_platform.Protocols.Acceptance.{accepted_iff}
use agent_execution_platform.Protocols.AaveV3.Requests.{
  AaveSupplyRequest, AaveWithdrawRequest, AaveRepayRequest, AaveBorrowRequest,
}
use agent_execution_platform.Protocols.AaveV3.Compile.{
  compile_supply, compile_withdraw, compile_repay, compile_borrow,
}
use agent_execution_platform.Protocols.AaveV3.Compiled.{
  Fits, supply_ok, withdraw_ok, repay_ok, borrow_ok,
}

-- The four requests, each with its own compilation.
pub data AaveAction : Type 0 where
  supplying : AaveSupplyRequest → AaveAction
  withdrawing : AaveWithdrawRequest → AaveAction
  repaying : AaveRepayRequest → AaveAction
  borrowing : AaveBorrowRequest → AaveAction

abbrev pub agent_of : AaveAction → Text
agent_of (supplying req) = req.agent_id
agent_of (withdrawing req) = req.agent_id
agent_of (repaying req) = req.agent_id
agent_of (borrowing req) = req.agent_id

abbrev pub chain_of : AaveAction → Text
chain_of (supplying req) = req.chain
chain_of (withdrawing req) = req.chain
chain_of (repaying req) = req.chain
chain_of (borrowing req) = req.chain

some_inj : {A : Type 0} {a b : A} → ◌≡◌ {A = Option A} (some a) (some b) → a ≡ b
some_inj h = ground (arith, h)

module _ (hex : Hex) {u256 : U256} (eth : Ethers u256) where
  abbrev pub compile : AaveAction → List ℕ → Result ProtocolError ExecutionRequest
  compile (supplying req) = compile_supply hex eth req
  compile (withdrawing req) = compile_withdraw hex eth req
  compile (repaying req) = compile_repay hex eth req
  compile (borrowing req) = compile_borrow hex eth req

  compile_ok :
      (action : AaveAction) (wallet : List ℕ) (out : ExecutionRequest)
      → IsAddress wallet
      → compile action wallet ≡ ok out
      → Fits hex eth (agent_of action) (chain_of action) out
  compile_ok (supplying req) wallet out w h = supply_ok hex eth req wallet out w h
  compile_ok (withdrawing req) wallet out w h = withdraw_ok hex eth req wallet out w h
  compile_ok (repaying req) wallet out w h = repay_ok hex eth req wallet out w h
  compile_ok (borrowing req) wallet out w h = borrow_ok hex eth req wallet out w h

  -- A compiled supply, withdrawal, repayment or borrow, for a wallet whose address has twenty bytes, is
  -- accepted by the engine exactly if Ethereum has a provider and the name of the agent has at most
  -- 256 bytes, and then for Ethereum.
  pub validate-compile :
      (configured : Chain → Bool) (action : AaveAction) (wallet : List ℕ) (out : ExecutionRequest)
      (chain : Chain)
      → IsAddress wallet
      → compile action wallet ≡ ok out
      → (validate hex configured out ≡ ok chain)
        ↔ ((chain ≡ ethereum) × (configured ethereum ≡ true) × (byte_len (agent_of action) ≤ 256))
  validate-compile configured action wallet out chain w h =
      let (known, named, made) = compile_ok action wallet out w h in
      let both =
        accepted_iff hex eth configured (agent_of action) (chain_of action) out chain named made in
      (
        λ v.
            let (on, provided, short) = both.0 v in
            let same : chain ≡ ethereum = some_inj (sym on ∙ known) in
            (same, rw (← same) provided, short),
        λ (same, provided, short). both.1 (rw same known, rw same provided, short),
      )
