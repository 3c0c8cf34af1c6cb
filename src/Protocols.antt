-- ===== src/Protocols.antt =====
-- src/protocols/: the typed adapters of the DeFi protocols, which turn actions into requests.
pub mod Amounts
pub mod Decimals
pub mod Parsing
pub mod Printed
pub mod Calldata
pub mod Platform
pub mod Acceptance
pub mod AaveV3
pub mod Morpho
pub mod Balancer
