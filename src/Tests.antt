-- ===== src/Tests.antt =====
-- Runs of the model on small inputs, and each theorem at an input that meets its hypotheses.
mod Fixtures
mod HexDigits
mod Decimals
mod BigEndian
mod AbiWords
mod CrateFixtures
mod QueueRuns
mod WorkerRuns
mod RelayerRuns
mod SubmissionRuns
mod ApiRuns
mod SimulationRuns
mod IssuanceRuns
mod StatusRuns
mod Nodes
mod AaveRuns
mod MorphoRuns
mod MorphoCalls
mod WalletRuns
mod BalancerRuns
