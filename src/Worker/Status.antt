-- ===== src/Worker/Status.antt =====
-- src/worker/mod.rs: the status that one turn leaves a request in, on every path of the loop.
use agent_execution_platform.Prelude.{
  ℕ, ◌+◌, Option, none, some, List, ◌∷◌, leb, if◌then◌else◌, Bool-cases, inl, inr,
}
use agent_execution_platform.Prelude.Text.{Text}
use agent_execution_platform.Service.{IsHealthy}
use agent_execution_platform.Types.{
  ExecutionJob, ExecutionStatus, broadcasting, confirmed, failed, reverted,
}
use agent_execution_platform.Queue.{Redis, max_job_attempts, dequeue_job}
use agent_execution_platform.Queue.Payloads.{Codec}
use agent_execution_platform.Queue.Order.{Holds, dequeue_job-Holds}
use agent_execution_platform.Db.{Database, update_execution_status}
use agent_execution_platform.Db.Tables.{Tables, ℤ}
use agent_execution_platform.Db.Status.{
  Marked, Marked-trans, Marked-same, update_execution_status-Marked, insert_transaction-requests,
}
use agent_execution_platform.Worker.{
  World, Executed, panicked, returned, error_message, is_revert, re_enqueue_with_bump, settle,
  process_job, worker_turn, exhausted_message,
}
use agent_execution_platform.Worker.Requeue.{fire_webhook-redis}

-- A failed attempt that may be repeated leaves the request as it was when it was taken up.
abbrev pub retry_status : ExecutionJob → ExecutionStatus
retry_status j = if leb max_job_attempts (j.attempt_count + 1) then failed else broadcasting

abbrev pub outcome_status : ExecutionJob → Executed → ExecutionStatus
outcome_status j panicked = retry_status j
outcome_status j (returned r) =
    if r.success
    then confirmed
    else if is_revert (error_message r)
    then reverted
    else retry_status j

-- The status after a turn for `j` whose execution, if it is made, ends as `outcome`.
abbrev pub turn_status : ExecutionJob → Executed → ExecutionStatus
turn_status j outcome =
    if leb max_job_attempts j.attempt_count then failed else outcome_status j outcome

module _ {D : Type 0} (pool : Database D) (healthy : IsHealthy pool) (j : ExecutionJob) where
  -- Relative to the tables `v`, the request of `j` has come to this status.
  abbrev At : Tables → ExecutionStatus → D → Type 0
  At v s d = Marked j.request_id s v (pool.view d)

  update-At :
      (v : Tables) (s t : ExecutionStatus) (h e : Option Text) (g : Option ℤ) (d : D)
      → At v s d
      → At v t (update_execution_status pool j.request_id t h e g d).1
  update-At v s t h e g d a =
      Marked-trans j.request_id s t v (pool.view d) _ a
        (update_execution_status-Marked pool j.request_id t h e g d healthy)

  module _ {P S N : Type 0} (codec : Codec P) (conn : Redis codec S) (wid : ℕ) where
    re_enqueue_with_bump-At :
        (v : Tables) (w : World S D N)
        → At v broadcasting w.db
        → At v (retry_status j) (re_enqueue_with_bump codec conn pool j wid w).db
    unfolding re_enqueue_with_bump
    re_enqueue_with_bump-At v w a = elim (Bool-cases (leb max_job_attempts (j.attempt_count + 1))) [
      | inl last ↦
          rw (last, (fire_webhook-redis codec conn pool j _ _ _ _).1)
            (update-At v broadcasting failed none (some exhausted_message) none w.db a)
      | inr more ↦ rw more a
    ]

    settle-At :
        (v : Tables) (o : Executed) (w : World S D N)
        → At v broadcasting w.db
        → At v (outcome_status j o) (settle codec conn pool j wid o w).db
    unfolding settle
    settle-At v panicked w a = re_enqueue_with_bump-At v w a
    settle-At v (returned r) w a = elim (Bool-cases r.success) [
      | inl success ↦
          rw (success, (fire_webhook-redis codec conn pool j _ _ _ _).1)
            (Marked-same j.request_id confirmed v _ _
              (update-At v broadcasting confirmed (some r.tx_hash) none none w.db a)
              (insert_transaction-requests pool _ _ _ _ _ _ _ _))
      | inr failure ↦ elim (Bool-cases (is_revert (error_message r))) [
        | inl back ↦
            rw (failure, back, (fire_webhook-redis codec conn pool j _ _ _ _).1)
              (update-At v broadcasting reverted _ _ none w.db a)
        | inr other ↦ rw (failure, other) (re_enqueue_with_bump-At v w a)
      ]
    ]

    process_job-At :
        (execute : ExecutionJob → N → Executed × N) (w : World S D N)
        → At
            (pool.view w.db)
            (turn_status j (execute j w.net).0)
            (process_job codec conn pool execute j wid w).db
    unfolding process_job
    process_job-At execute w = elim (Bool-cases (leb max_job_attempts j.attempt_count)) [
      | inl spent ↦
          rw (spent, (fire_webhook-redis codec conn pool j _ _ _ _).1)
            (update_execution_status-Marked pool j.request_id failed _ _ _ w.db healthy)
      | inr left ↦ rw left (
          settle-At (pool.view w.db) (execute j w.net).0 _
            (update_execution_status-Marked pool j.request_id broadcasting _ _ _ w.db healthy))
    ]

module _ {P S D N : Type 0} (codec : Codec P) (conn : Redis codec S) (pool : Database D)
    (execute : ExecutionJob → N → Executed × N) (wid : ℕ) where
  -- While Redis and PostgreSQL answer, a turn leaves the request of the oldest job confirmed,
  -- reverted or failed, as its execution ended, and broadcasting where the job goes back to the
  -- queue; every other request is as it was.
  pub worker_turn-Marked :
      (j : ExecutionJob) (js : List ExecutionJob) (w : World S D N)
      → IsHealthy conn
      → IsHealthy pool
      → Holds codec (j ∷ js) (conn.view w.redis).main_list
      → let w' = worker_turn codec conn pool execute wid w in
        Marked j.request_id (turn_status j (execute j w.net).0) (pool.view w.db) (pool.view w'.db)
  unfolding worker_turn
  worker_turn-Marked j js w healthy answers h =
      let (result, _, _, _) = dequeue_job-Holds codec conn wid (j ∷ js) w.redis healthy h in
      rw result (
        process_job-At pool answers j codec conn wid execute
          (record w { redis = (dequeue_job codec conn wid w.redis).1 }))
