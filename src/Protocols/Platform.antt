-- ===== src/Protocols/Platform.antt =====
-- src/protocols/*/service.rs: what every handler of a protocol is given besides its request. The
-- registry of the wallets and the two ways into the execution API are src/api/services/mod.rs and
-- src/agent_wallet/mod.rs; the handlers only call them.
use agent_execution_platform.Prelude.{ℕ, List}
use agent_execution_platform.Prelude.Text.{Text}
use agent_execution_platform.Prelude.Actions.{Action}
use agent_execution_platform.Types.{Chain, ExecutionRequest, ExecutionResponse}
use agent_execution_platform.Wallets.{AgentWallet}

pub record Platform (W : Type 0) : Type 0 where
  pub get_or_create : ℕ → Text → Action W Text AgentWallet
  pub resolve_chain_smart_wallet_address : Chain → AgentWallet → Action W Text (List ℕ)
  pub handle_execute : ℕ → ExecutionRequest → Action W Text ExecutionResponse
  pub handle_simulate : ℕ → ExecutionRequest → Action W Text ExecutionResponse
