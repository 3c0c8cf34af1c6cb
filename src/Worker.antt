-- ===== src/Worker.antt =====
-- src/worker/mod.rs: the loop of `run_worker`, with the webhook and the re-enqueue helpers. What
-- `execute_erc4337` does for a job is an argument, `execute`, over a state of its own, `net`.
pub mod Requeue
pub mod Progress
pub mod Status
pub mod Completion
use agent_execution_platform.Prelude.{
  ℕ, zero, suc, ◌+◌, Bool, true, false, ◌||◌, Option, none, some, List, [], ◌∷◌, leb, if◌then◌else◌,
}
use agent_execution_platform.Prelude.Text.{Text, text, is_empty, contains}
use agent_execution_platform.Prelude.Results.{Result, ok, err}
use agent_execution_platform.Prelude.Actions.{Action}
use agent_execution_platform.Types.{
  Chain, chain_to_string, ExecutionJob, ExecutionStatus, broadcasting, confirmed, failed, reverted,
  RelayerResult,
}
use agent_execution_platform.Queue.{
  QueueError, Redis, max_job_attempts, enqueue_job, dequeue_job, ack_job, move_to_dlq, push_to_dlq,
}
use agent_execution_platform.Queue.Payloads.{Codec}
use agent_execution_platform.Db.{DbError, Database, update_execution_status, insert_transaction}

-- A delivery that `fire_webhook` hands to `webhook::deliver`, in a task of its own.
pub record Webhook : Type 0 where
  pub callback_url : Text
  pub signing_secret : Text
  pub request_id : ℕ
  pub status : ExecutionStatus
  pub chain : Text
  pub tx_hash : Option Text
  pub error : Option Text
  pub created_at : ℕ

-- What a worker acts on: Redis, PostgreSQL, the state behind `execute`, the deliveries started, the
-- newest first, and the source of fresh identifiers.
pub record World (S D N : Type 0) : Type 0 where
  pub redis : S
  pub db : D
  pub net : N
  pub webhooks : List Webhook
  pub next_uuid : ℕ

-- How the spawned execution task ended: `handle.await`.
pub data Executed : Type 0 where
  panicked : Executed
  returned : RelayerResult → Executed

abbrev present : Option Text → Option Text
present none = none
present (some t) = if is_empty t then none else some t

abbrev present_text : Text → Option Text
present_text t = if is_empty t then none else some t

abbrev unwrap_or : Option Text → Text → Text
unwrap_or none d = d
unwrap_or (some t) d = t

abbrev pub error_message : RelayerResult → Text
error_message r = unwrap_or r.error (text "unknown error")

unfoldable pub is_revert : Text → Bool
is_revert message =
    contains (text "reverted on-chain") message || contains (text "UserOp reverted") message

abbrev pub exceeded_message : Text
exceeded_message = text "exceeded 3 execution attempts"

abbrev pub exhausted_message : Text
exhausted_message = text "exhausted 3 attempts, moved to dead-letter queue"

-- `bumped.attempt_count += 1` on a clone.
abbrev pub bump : ExecutionJob → ExecutionJob
bump job = record job { attempt_count = job.attempt_count + 1 }

module _ {P S D N : Type 0} (codec : Codec P) (conn : Redis codec S) (pool : Database D) where
  -- A call whose error is only logged.
  abbrev on_redis : {A : Type 0} → Action S QueueError A → World S D N → World S D N
  on_redis m w = record w { redis = (m w.redis).1 }

  abbrev on_db : {A : Type 0} → Action D DbError A → World S D N → World S D N
  on_db m w = record w { db = (m w.db).1 }

  abbrev deliver_to :
      Option Text
      → Option Text
      → ExecutionJob
      → ExecutionStatus
      → Option Text
      → Option Text
      → World S D N
      → World S D N
  deliver_to none secret job status tx_hash error w = w
  deliver_to (some url) none job status tx_hash error w = w
  deliver_to (some url) (some secret) job status tx_hash error w = record w {
    webhooks =
        record {
          callback_url = url;
          signing_secret = secret;
          request_id = job.request_id;
          status = status;
          chain = chain_to_string job.chain;
          tx_hash = tx_hash;
          error = error;
          created_at = job.created_at;
        }
        ∷ w.webhooks;
  }

  unfoldable pub fire_webhook :
      ExecutionJob → ExecutionStatus → Option Text → Option Text → World S D N → World S D N
  fire_webhook job status tx_hash error w =
      deliver_to (present job.callback_url) (present job.api_key_hash) job status tx_hash error w

  unfoldable pub re_enqueue_with_bump : ExecutionJob → ℕ → World S D N → World S D N
  re_enqueue_with_bump job worker_id w =
      let acked = on_redis (ack_job codec conn job worker_id) w in
      let bumped = bump job in
      if leb max_job_attempts bumped.attempt_count
      then fire_webhook job failed none (some exhausted_message) (
          on_db
            (update_execution_status pool job.request_id failed none (some exhausted_message) none)
            (on_redis (push_to_dlq codec conn bumped) acked))
      else on_redis (enqueue_job codec conn bumped) acked

  -- A job that was already attempted too often: it is not executed.
  poison : ExecutionJob → ℕ → World S D N → World S D N
  poison job worker_id w = on_redis (move_to_dlq codec conn job worker_id) (
      fire_webhook job failed none (some exceeded_message) (
        on_db (update_execution_status pool job.request_id failed none (some exceeded_message) none)
          w))

  confirm : ExecutionJob → ℕ → RelayerResult → World S D N → World S D N
  confirm job worker_id result w =
      let marked =
        on_db
          (update_execution_status pool job.request_id confirmed (some result.tx_hash) none none)
          w in
      let recorded =
        on_db
          (insert_transaction pool marked.next_uuid job.request_id (chain_to_string job.chain)
            result.tx_hash job.smart_wallet_address job.target_contract (text "confirmed"))
          (record marked { next_uuid = marked.next_uuid + 1 }) in
      on_redis (ack_job codec conn job worker_id)
        (fire_webhook job confirmed (some result.tx_hash) none recorded)

  revert : ExecutionJob → ℕ → RelayerResult → World S D N → World S D N
  revert job worker_id result w =
      let tx_hash = present_text result.tx_hash in
      let message = some (error_message result) in
      on_redis (ack_job codec conn job worker_id) (
        fire_webhook job reverted tx_hash message
          (on_db (update_execution_status pool job.request_id reverted tx_hash message none) w))

  -- What follows the execution, by how it ended.
  unfoldable pub settle : ExecutionJob → ℕ → Executed → World S D N → World S D N
  unfolding confirm revert
  settle job worker_id panicked w = re_enqueue_with_bump job worker_id w
  settle job worker_id (returned result) w =
      if result.success
      then confirm job worker_id result w
      else if is_revert (error_message result)
      then revert job worker_id result w
      else re_enqueue_with_bump job worker_id w

  module _ (execute : ExecutionJob → N → Executed × N) where
    -- The body of the loop, for one dequeued job.
    unfoldable pub process_job : ExecutionJob → ℕ → World S D N → World S D N
    unfolding poison
    process_job job worker_id w =
        if leb max_job_attempts job.attempt_count
        then poison job worker_id w
        else let marked =
            on_db (update_execution_status pool job.request_id broadcasting none none none) w in
          let (outcome, net') = execute job marked.net in
          settle job worker_id outcome (record marked { net = net' })

    after_dequeue : ℕ → Result QueueError (Option ExecutionJob) → World S D N → World S D N
    after_dequeue worker_id (ok (some job)) w = process_job job worker_id w
    after_dequeue worker_id (ok none) w = w
    after_dequeue worker_id (err e) w = w

    -- One turn of the loop.
    unfoldable pub worker_turn : ℕ → World S D N → World S D N
    unfolding after_dequeue
    worker_turn worker_id w =
        let (r, s') = dequeue_job codec conn worker_id w.redis in
        after_dequeue worker_id r (record w { redis = s' })

    -- The first turns of `run_worker`, which loops without end.
    unfoldable pub run_worker : ℕ → ℕ → World S D N → World S D N
    run_worker zero worker_id w = w
    run_worker (suc turns) worker_id w = run_worker turns worker_id (worker_turn worker_id w)
