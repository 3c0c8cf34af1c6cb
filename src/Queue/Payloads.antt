-- ===== src/Queue/Payloads.antt =====
-- serde_json as src/queue/mod.rs uses it: it writes jobs as payloads and reads them back.
use agent_execution_platform.Prelude.{◌≡◌, ◌↔◌, Bool, true, Option, some}
use agent_execution_platform.Types.{ExecutionJob}

-- `to_string` and `from_str` of serde_json, not part of the repository; payloads are compared by
-- Redis. The laws: comparison is equality, a written job reads back as itself, and a job, which
-- holds texts, numbers and options only, can be written.
pub record Codec (P : Type 0) : Type 0 where
  pub beq : P → P → Bool
  pub beq_iff : (p q : P) → (beq p q ≡ true) ↔ (p ≡ q)
  pub to_string : ExecutionJob → Option P
  pub from_str : P → Option ExecutionJob
  pub round_trip : (j : ExecutionJob) (p : P) → to_string j ≡ some p → from_str p ≡ some j
  pub writable : (j : ExecutionJob) → (p : P) × (to_string j ≡ some p)
