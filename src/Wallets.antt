-- ===== src/Wallets.antt =====
-- src/agent_wallet/mod.rs: the registry of the agents' wallets, over the table agent_wallets, a node
-- and the crates for keys and ciphers. A text that is encrypted is its bytes in UTF-8; hexadecimal
-- digits are their own bytes.
pub mod Ciphers
pub mod Registry
pub mod Keys
pub mod Rows
pub mod Lookup
pub mod Stored
pub mod Canonical
pub mod Names
use agent_execution_platform.Prelude.{
  ℕ, Bool, true, false, Option, none, some, List, [], ◌∷◌, ◌++◌, if◌then◌else◌,
}
use agent_execution_platform.Prelude.Text.{Text, text, text_eq}

-- `struct AgentWalletRow`, without the time of creation.
pub record AgentWalletRow : Type 0 where
  pub id : ℕ
  pub api_key_id : ℕ
  pub agent_id : Text
  pub namespaced_id : Text
  pub signing_key_encrypted : Text
  pub eoa_address : Text
  pub smart_wallet_address : Text

-- `pub struct AgentWallet`.
pub record AgentWallet : Type 0 where
  pub id : ℕ
  pub api_key_id : ℕ
  pub agent_id : Text
  pub namespaced_id : Text
  pub eoa_address : List ℕ
  pub smart_wallet_address : List ℕ
  pub signing_key_encrypted : Text

-- The two statements of the registry. The insert is `ON CONFLICT (namespaced_id) DO NOTHING`.
pub data Statement : Type 0 where
  select_wallet : Text → Statement
  insert_wallet : AgentWalletRow → Statement

pub data Answer : Type 0 where
  row : Option AgentWalletRow → Answer
  done : Answer

abbrev pub row_of : List AgentWalletRow → Text → Option AgentWalletRow
row_of [] name = none
row_of (r ∷ rs) name = if text_eq r.namespaced_id name then some r else row_of rs name

abbrev pub inserted :
    Option AgentWalletRow → AgentWalletRow → List AgentWalletRow → List AgentWalletRow
inserted (some old) r rs = rs
inserted none r rs = r ∷ rs

abbrev pub wallet_apply : Statement → List AgentWalletRow → Answer × List AgentWalletRow
wallet_apply (select_wallet name) rs = (row (row_of rs name), rs)
wallet_apply (insert_wallet r) rs = (done, inserted (row_of rs r.namespaced_id) r rs)

-- `format!("{api_key_id}::{agent_id}")`, by the text of a `Uuid`.
abbrev pub namespaced : (ℕ → Text) → ℕ → Text → Text
namespaced uuid_text api_key_id agent_id = uuid_text api_key_id ++ text "::" ++ agent_id
