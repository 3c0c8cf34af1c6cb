-- ===== src/Relayer.antt =====
-- src/relayer: what turns a job into a sponsored UserOperation for a bundler.
pub mod Utils
pub mod UserOp
pub mod Sponsor
pub mod Hashes
pub mod Answers
pub mod Fees
pub mod Receipt
