-- ===== src/Queue/Healthy.antt =====
-- src/queue/mod.rs while Redis answers: the result and the effect of each operation.
use agent_execution_platform.Prelude.{ℕ, ◌≡◌, none, some, List, [], ◌∷◌, ◌++◌, arith}
use agent_execution_platform.Prelude.Results.{ok}
use agent_execution_platform.Service.{IsHealthy, call_healthy}
use agent_execution_platform.Types.{ExecutionJob}
use agent_execution_platform.Queue.{
  Redis, enqueue_job, dequeue_job, ack_job, move_to_dlq, push_to_dlq,
}
use agent_execution_platform.Queue.Lists.{
  main_queue, processing, dead_letter, lpush, lrem, lmove, redis_apply, put, remove_first,
}
use agent_execution_platform.Queue.Payloads.{Codec}
use agent_execution_platform.Queue.Counts.{pop_right-append}

module _ {P S : Type 0} (codec : Codec P) (conn : Redis codec S) (healthy : IsHealthy conn) where
  pub enqueue_job_healthy :
      (j : ExecutionJob) (s : S) {p : P}
      → codec.to_string j ≡ some p
      → ((enqueue_job codec conn j s).0 ≡ ok tt)
        × (conn.view (enqueue_job codec conn j s).1
            ≡ record (conn.view s) { main_list = p ∷ (conn.view s).main_list })
  unfolding enqueue_job redis_apply
  enqueue_job_healthy j s {p} written =
      ground (arith, call_healthy conn healthy (lpush main_queue p) s)

  pub push_to_dlq_healthy :
      (j : ExecutionJob) (s : S) {p : P}
      → codec.to_string j ≡ some p
      → ((push_to_dlq codec conn j s).0 ≡ ok tt)
        × (conn.view (push_to_dlq codec conn j s).1
            ≡ record (conn.view s) { dead_letter_list = p ∷ (conn.view s).dead_letter_list })
  unfolding push_to_dlq redis_apply
  push_to_dlq_healthy j s {p} written =
      ground (arith, call_healthy conn healthy (lpush dead_letter p) s)

  pub ack_job_healthy :
      (j : ExecutionJob) (w : ℕ) (s : S) {p : P}
      → codec.to_string j ≡ some p
      → ((ack_job codec conn j w s).0 ≡ ok tt)
        × (conn.view (ack_job codec conn j w s).1
            ≡ put
                (processing w)
                (remove_first codec.beq p ((conn.view s).processing_list w))
                (conn.view s))
  unfolding ack_job redis_apply
  ack_job_healthy j w s {p} written =
      ground (arith, call_healthy conn healthy (lrem (processing w) p) s)

  pub move_to_dlq_healthy :
      (j : ExecutionJob) (w : ℕ) (s : S) {p : P}
      → codec.to_string j ≡ some p
      → ((move_to_dlq codec conn j w s).0 ≡ ok tt)
        × (conn.view (move_to_dlq codec conn j w s).1
            ≡ put dead_letter (p ∷ (conn.view s).dead_letter_list) (
                put
                  (processing w)
                  (remove_first codec.beq p ((conn.view s).processing_list w))
                  (conn.view s)))
  unfolding move_to_dlq redis_apply
  move_to_dlq_healthy j w s {p} written =
      let s' = (conn.call (lrem (processing w) p) s).1 in
      ground (
        arith,
        call_healthy conn healthy (lrem (processing w) p) s,
        call_healthy conn healthy (lpush dead_letter p) s',
      )

  pub dequeue_job_empty :
      (w : ℕ) (s : S)
      → (conn.view s).main_list ≡ []
      → ((dequeue_job codec conn w s).0 ≡ ok none)
        × (conn.view (dequeue_job codec conn w s).1 ≡ conn.view s)
  unfolding dequeue_job redis_apply
  dequeue_job_empty w s e =
      ground (arith, call_healthy conn healthy (lmove main_queue (processing w)) s)

  pub dequeue_job_oldest :
      (w : ℕ) (s : S) (j : ExecutionJob) (l : List P) (p : P)
      → (conn.view s).main_list ≡ l ++ p ∷ []
      → codec.from_str p ≡ some j
      → ((dequeue_job codec conn w s).0 ≡ ok (some j))
        × (conn.view (dequeue_job codec conn w s).1
            ≡ put
                (processing w)
                (p ∷ (conn.view s).processing_list w)
                (record (conn.view s) { main_list = l }))
  unfolding dequeue_job redis_apply
  dequeue_job_oldest w s j l p e readable =
      ground
        (arith, call_healthy conn healthy (lmove main_queue (processing w)) s, pop_right-append l p)
