-- ===== src/Types.antt =====
-- src/types/mod.rs: the domain types that every component shares. A `Uuid`, a `DateTime` and the
-- `u64` and `u32` fields are native numbers; a `String` is a text.
pub mod Laws
use agent_execution_platform.Prelude.{ℕ, Bool, Option, none, some, List, ◌||◌, map, if◌then◌else◌}
use agent_execution_platform.Prelude.Text.{Text, text, text_eq, ascii_lower}

pub data Chain : Type 0 where
  ethereum base arbitrum : Chain

-- `impl Display for Chain`.
unfoldable pub chain_to_string : Chain → Text
chain_to_string ethereum = text "ethereum"
chain_to_string base = text "base"
chain_to_string arbitrum = text "arbitrum"

-- `to_lowercase` is taken on ASCII letters and leaves other characters alone: the words below hold
-- no character that is the lower case of a letter outside ASCII.
unfoldable pub from_str_loose : Text → Option Chain
from_str_loose s =
    let t = map ascii_lower s in
    if text_eq t (text "ethereum") || text_eq t (text "eth") || text_eq t (text "mainnet")
    then some ethereum
    else if text_eq t (text "base")
    then some base
    else if text_eq t (text "arbitrum") || text_eq t (text "arb")
    then some arbitrum
    else none

pub data ExecutionStatus : Type 0 where
  pending queued broadcasting confirmed failed reverted : ExecutionStatus

-- `impl Display for ExecutionStatus`: the name that serde gives the variant, in snake case.
unfoldable pub status_to_string : ExecutionStatus → Text
status_to_string pending = text "pending"
status_to_string queued = text "queued"
status_to_string broadcasting = text "broadcasting"
status_to_string confirmed = text "confirmed"
status_to_string failed = text "failed"
status_to_string reverted = text "reverted"

-- The way back, by serde's derived `Deserialize` over the same names.
unfoldable pub status_from_string : Text → Option ExecutionStatus
status_from_string s =
    if text_eq s (text "pending")
    then some pending
    else if text_eq s (text "queued")
    then some queued
    else if text_eq s (text "broadcasting")
    then some broadcasting
    else if text_eq s (text "confirmed")
    then some confirmed
    else if text_eq s (text "failed")
    then some failed
    else if text_eq s (text "reverted")
    then some reverted
    else none

pub record BatchCall : Type 0 where
  pub target_contract : Text
  pub calldata : Text
  pub value : Text

pub record ExecutionRequest : Type 0 where
  pub agent_id : Text
  pub chain : Text
  pub target_contract : Text
  pub calldata : Text
  pub value : Text
  pub strategy_id : Option Text
  pub batch_calls : Option (List BatchCall)
  pub callback_url : Option Text

pub record ExecutionResponse : Type 0 where
  pub request_id : ℕ
  pub status : ExecutionStatus
  pub smart_wallet_address : Option Text
  pub estimated_gas : Option ℕ
  pub tx_hash : Option Text
  pub message : Text

pub record ExecutionJob : Type 0 where
  pub request_id : ℕ
  pub agent_id : Text
  pub smart_wallet_address : Text
  pub eoa_address : Text
  pub chain : Chain
  pub target_contract : Text
  pub calldata : Text
  pub value : Text
  pub gas_limit : ℕ
  pub created_at : ℕ
  pub attempt_count : ℕ
  pub batch_calls : Option (List BatchCall)
  pub callback_url : Option Text
  pub api_key_hash : Option Text

pub record RelayerResult : Type 0 where
  pub tx_hash : Text
  pub success : Bool
  pub error : Option Text
  pub block_number : Option ℕ
  pub gas_used : Option ℕ

pub record SimulationResult : Type 0 where
  pub success : Bool
  pub gas_estimate : ℕ
  pub return_data : Option Text
  pub error : Option Text

pub record ApiKeyContext : Type 0 where
  pub api_key_id : ℕ
  pub label : Option Text

-- The packed UserOperation of EntryPoint v0.9, every field a hex text with the prefix 0x.
pub record UserOperation : Type 0 where
  pub sender : Text
  pub nonce : Text
  pub init_code : Text
  pub call_data : Text
  pub account_gas_limits : Text
  pub pre_verification_gas : Text
  pub gas_fees : Text
  pub paymaster_and_data : Text
  pub signature : Text

pub record UserOpResult : Type 0 where
  pub user_op_hash : Text
  pub tx_hash : Option Text
  pub success : Bool
  pub error : Option Text
  pub block_number : Option ℕ
  pub gas_used : Option ℕ
