-- ===== src/Tests/Fixtures.antt =====
-- Servers that answer every call at once, a codec that keeps jobs as they are, and some jobs.
use agent_execution_platform.Prelude.{
  ℕ, suc, inl, sym, ◌≡◌, ◌↔◌, refl, Bool, true, false, none, some, [], ◌∷◌, ℕ_discrete,
}
use agent_execution_platform.Prelude.Text.{text}
use agent_execution_platform.Service.{Service, IsHealthy}
use agent_execution_platform.Types.{ExecutionJob, base}
use agent_execution_platform.Queue.{Redis}
use agent_execution_platform.Queue.Lists.{Store, redis_apply}
use agent_execution_platform.Queue.Payloads.{Codec}
use agent_execution_platform.Db.{Database}
use agent_execution_platform.Db.Tables.{Tables, ExecutionRequestRow, db_apply}
use agent_execution_platform.Worker.{World, Executed, panicked}

-- A server that carries out each command and answers.
abbrev pub instant : {V Cmd Rep : Type 0} (apply : Cmd → V → Rep × V) → Service apply V
instant apply = record {
  view = λ v. v;
  call = λ c v. (some (apply c v).0, (apply c v).1);
  applied = λ c v. (refl, refl);
}

pub instant-IsHealthy : {V Cmd Rep : Type 0} (apply : Cmd → V → Rep × V) → IsHealthy (instant apply)
instant-IsHealthy apply c v = ((apply c v).0, refl)

-- A server that carries out a command and loses the answer, or does neither, as `reached` says.
abbrev pub broken : {V Cmd Rep : Type 0} (apply : Cmd → V → Rep × V) → Service apply V
broken apply = record { view = λ v. v; call = λ c v. (none, v); applied = λ c v. inl refl }

pub job_discrete : Discrete ExecutionJob
job_discrete = hlevel ℕ_discrete

abbrev pub same : {A : Type 0} {a b : A} → Dec (a ≡ b) → Bool
same (yes e) = true
same (no e) = false

pub same_iff : {A : Type 0} (a b : A) (d : Dec (a ≡ b)) → (same d ≡ true) ↔ (a ≡ b)
same_iff a b (yes e) = (λ _. e, λ _. refl)
same_iff a b (no e) = (λ h. cc, λ h. absurd (e h))

abbrev pub plain : Codec ExecutionJob
plain = record {
  beq = λ a b. same (job_discrete a b);
  beq_iff = λ a b. same_iff a b (job_discrete a b);
  to_string = some;
  from_str = some;
  round_trip = λ j p e. sym e;
  writable = λ j. (j, refl);
}

abbrev pub redis : Redis plain (Store ExecutionJob)
redis = instant (redis_apply plain.beq)

abbrev pub postgres : Database Tables
postgres = instant db_apply

abbrev pub job : ℕ → ℕ → ExecutionJob
job id attempts = record {
  request_id = id;
  agent_id = text "agent";
  smart_wallet_address = text "0xaa";
  eoa_address = text "0xbb";
  chain = base;
  target_contract = text "0xcc";
  calldata = text "0xdeadbeef";
  value = text "0";
  gas_limit = 100_000;
  created_at = 7;
  attempt_count = attempts;
  batch_calls = none;
  callback_url = some (text "https://a.example/");
  api_key_hash = some (text "k");
}

abbrev pub no_lists : Store ExecutionJob
no_lists = record { main_list = []; processing_list = λ _. []; dead_letter_list = [] }

-- Two jobs wait, the first for request 1.
abbrev pub two_waiting : Store ExecutionJob
two_waiting = record no_lists { main_list = job 2 0 ∷ job 1 0 ∷ [] }

abbrev pub row : ℕ → ExecutionRequestRow
row id = record {
  id = id;
  api_key_id = some 5;
  agent_wallet = text "agent";
  chain = text "base";
  target_contract = text "0xcc";
  calldata = text "0xdeadbeef";
  value = text "0";
  strategy_id = none;
  gas_estimate = none;
  status = text "queued";
  tx_hash = none;
  error_message = none;
  agent_id = some (text "agent");
  smart_wallet_address = some (text "0xaa");
  callback_url = none;
}

abbrev pub tables : Tables
tables = record { requests = λ id. some (row id); transactions = []; api_keys = [] }

-- An execution that always fails for a passing reason, counted.
abbrev pub always_fails : ExecutionJob → ℕ → Executed × ℕ
always_fails j n = (panicked, suc n)

abbrev pub world : World (Store ExecutionJob) Tables ℕ
world = record { redis = two_waiting; db = tables; net = 0; webhooks = []; next_uuid = 100 }
