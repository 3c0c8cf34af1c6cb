-- ===== src/Types/Laws.antt =====
-- src/types/mod.rs: names of chains and statuses are read back as what they name.
use agent_execution_platform.Prelude.{◌≡◌, refl, some}
use agent_execution_platform.Types.{
  Chain, ethereum, base, arbitrum, chain_to_string, from_str_loose, ExecutionStatus, pending,
  queued, broadcasting, confirmed, failed, reverted, status_to_string, status_from_string,
}

pub from_str_loose-chain_to_string : (c : Chain) → from_str_loose (chain_to_string c) ≡ some c
unfolding from_str_loose chain_to_string
from_str_loose-chain_to_string ethereum = refl
from_str_loose-chain_to_string base = refl
from_str_loose-chain_to_string arbitrum = refl

pub status_from_string-status_to_string :
    (s : ExecutionStatus) → status_from_string (status_to_string s) ≡ some s
unfolding status_from_string status_to_string
status_from_string-status_to_string pending = refl
status_from_string-status_to_string queued = refl
status_from_string-status_to_string broadcasting = refl
status_from_string-status_to_string confirmed = refl
status_from_string-status_to_string failed = refl
status_from_string-status_to_string reverted = refl
