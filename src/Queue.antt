-- ===== src/Queue.antt =====
-- src/queue/mod.rs: the job queue on Redis lists, with at-least-once delivery.
pub mod Lists
pub mod Payloads
pub mod Counts
pub mod Healthy
pub mod Conservation
pub mod Order
pub mod Traces
pub mod Recovery
use agent_execution_platform.Prelude.{ℕ, zero, suc, ◌+◌, ◌==◌, if◌then◌else◌, Option, none, some}
use agent_execution_platform.Prelude.Results.{Result, ok, err, or_err}
use agent_execution_platform.Prelude.Actions.{Action, pure, raise, lift, ignore, ◌>>=◌, ◌>>◌}
use agent_execution_platform.Service.{Service}
use agent_execution_platform.Types.{ExecutionJob}
use agent_execution_platform.Queue.Lists.{
  Key, main_queue, processing, dead_letter, Store, Command, lpush, lrem, lmove, llen, Reply, size,
  element, redis_apply,
}
use agent_execution_platform.Queue.Payloads.{Codec}

-- `redis` and `serialize` stand for the errors of the two crates; `conversion` is a reply of
-- another type than the call asked for; `out_of_fuel` belongs to the model of the recovery loop.
pub data QueueError : Type 0 where
  redis serialize conversion corrupt_payload out_of_fuel : QueueError

abbrev pub max_job_attempts : ℕ
max_job_attempts = 3

abbrev as_size : {P : Type 0} → Reply P → Result QueueError ℕ
as_size (size n) = ok n
as_size (element o) = err conversion

-- The connection to Redis, for payloads of type `P`.
abbrev pub Redis : {P : Type 0} → Codec P → Type 0 → Type 0
Redis codec S = Service (redis_apply codec.beq) S

module _ {P S : Type 0} (codec : Codec P) (conn : Redis codec S) where
  command : Command P → Action S QueueError (Reply P)
  command c s = let (o, s') = conn.call c s in (or_err o redis, s')

  -- `serde_json::to_string(job)?`
  payload_of : ExecutionJob → Action S QueueError P
  payload_of job = lift (or_err (codec.to_string job) serialize)

  unfoldable pub enqueue_job : ExecutionJob → Action S QueueError (Unit {0})
  unfolding command payload_of
  enqueue_job job = do p ← payload_of job; command (lpush main_queue p); pure tt

  -- A payload that cannot be read is taken out of the processing list and kept aside; both steps
  -- ignore their errors.
  read_payload : ℕ → P → Option ExecutionJob → Action S QueueError (Option ExecutionJob)
  unfolding command
  read_payload worker_id p (some job) = pure (some job)
  read_payload worker_id p none = do
    ignore (command (lrem (processing worker_id) p))
    ignore (command (lpush dead_letter p))
    raise corrupt_payload

  dequeued : ℕ → Reply P → Action S QueueError (Option ExecutionJob)
  unfolding read_payload
  dequeued worker_id (size n) = raise conversion
  dequeued worker_id (element none) = pure none
  dequeued worker_id (element (some p)) = read_payload worker_id p (codec.from_str p)

  unfoldable pub dequeue_job : ℕ → Action S QueueError (Option ExecutionJob)
  unfolding command dequeued
  dequeue_job worker_id = do
    reply ← command (lmove main_queue (processing worker_id))
    dequeued worker_id reply

  -- Whether an entry was removed is only logged.
  unfoldable pub ack_job : ExecutionJob → ℕ → Action S QueueError (Unit {0})
  unfolding command payload_of
  ack_job job worker_id = do
    p ← payload_of job
    reply ← command (lrem (processing worker_id) p)
    lift (as_size reply)
    pure tt

  unfoldable pub move_to_dlq : ExecutionJob → ℕ → Action S QueueError (Unit {0})
  unfolding command payload_of
  move_to_dlq job worker_id = do
    p ← payload_of job
    reply ← command (lrem (processing worker_id) p)
    lift (as_size reply)
    command (lpush dead_letter p)
    pure tt

  unfoldable pub push_to_dlq : ExecutionJob → Action S QueueError (Unit {0})
  unfolding command payload_of
  push_to_dlq job = do p ← payload_of job; command (lpush dead_letter p); pure tt

  -- One turn of the loop of `recover_stale_jobs`; `again` is the rest of the loop.
  recover_turn : Action S QueueError ℕ → ℕ → Reply P → Action S QueueError ℕ
  recover_turn again recovered (size n) = raise conversion
  recover_turn again recovered (element (some p)) = again
  recover_turn again recovered (element none) = pure recovered

  recover_loop : ℕ → ℕ → ℕ → Action S QueueError ℕ
  unfolding command recover_turn
  recover_loop zero worker_id recovered = raise out_of_fuel
  recover_loop (suc fuel) worker_id recovered = do
    reply ← command (lmove (processing worker_id) main_queue)
    recover_turn (recover_loop fuel worker_id (recovered + 1)) recovered reply

  unfoldable pub recover_stale_jobs : ℕ → ℕ → Action S QueueError ℕ
  unfolding recover_loop
  recover_stale_jobs fuel worker_id = recover_loop fuel worker_id 0

  unfoldable pub queue_length : Action S QueueError ℕ
  unfolding command
  queue_length = do reply ← command (llen main_queue); lift (as_size reply)

  unfoldable pub dlq_length : Action S QueueError ℕ
  unfolding command
  dlq_length = do reply ← command (llen dead_letter); lift (as_size reply)
