-- ===== src/Worker/Requeue.antt =====
-- src/worker/mod.rs while Redis answers: what one turn of the loop does to the main queue and to
-- the worker's processing list.
use agent_execution_platform.Prelude.{
  ℕ, ◌+◌, ◌≡◌, refl, Bool, true, false, Option, some, List, [], ◌∷◌, ◌++◌, arith, leb,
  if◌then◌else◌, append-nil, Bool-cases, inl, inr,
}
use agent_execution_platform.Prelude.Text.{Text}
use agent_execution_platform.Service.{IsHealthy}
use agent_execution_platform.Types.{ExecutionJob, ExecutionStatus}
use agent_execution_platform.Queue.{
  Redis, max_job_attempts, ack_job, push_to_dlq, enqueue_job, move_to_dlq, dequeue_job,
}
use agent_execution_platform.Queue.Payloads.{Codec}
use agent_execution_platform.Queue.Healthy.{
  enqueue_job_healthy, ack_job_healthy, move_to_dlq_healthy, push_to_dlq_healthy, dequeue_job_empty,
}
use agent_execution_platform.Queue.Order.{Holds, Holds-snoc, dequeue_job-Holds}
use agent_execution_platform.Db.{Database}
use agent_execution_platform.Worker.{
  World, Executed, panicked, returned, error_message, is_revert, fire_webhook, bump,
  re_enqueue_with_bump, settle, process_job, worker_turn,
}

-- A panic, or a failure that is no revert.
abbrev pub is_retry : Executed → Bool
is_retry panicked = true
is_retry (returned r) =
    if r.success then false else if is_revert (error_message r) then false else true

-- The job that a failed attempt puts back: none once the attempts are used up.
abbrev pub retried : ExecutionJob → List ExecutionJob
retried job = if leb max_job_attempts (job.attempt_count + 1) then [] else bump job ∷ []

-- What a turn for `job` puts back behind the jobs that wait.
abbrev pub comes_back : ExecutionJob → Executed → List ExecutionJob
comes_back job outcome =
    if leb max_job_attempts job.attempt_count
    then []
    else if is_retry outcome
    then retried job
    else []

module _ {P S D N : Type 0} (codec : Codec P) (conn : Redis codec S) (pool : Database D) where
  pub fire_webhook-redis :
      (j : ExecutionJob) (status : ExecutionStatus) (h e : Option Text) (w : World S D N)
      → ((fire_webhook codec conn pool j status h e w).redis ≡ w.redis)
        × ((fire_webhook codec conn pool j status h e w).db ≡ w.db)
  unfolding fire_webhook
  fire_webhook-redis j status h e w = ground arith

module _ {P S : Type 0} (codec : Codec P) (conn : Redis codec S) (healthy : IsHealthy conn)
    (wid : ℕ) (own : List P) (p : P) (j : ExecutionJob) (written : codec.to_string j ≡ some p) where
  ack_job-front :
      (s : S)
      → (conn.view s).processing_list wid ≡ p ∷ own
      → ((conn.view (ack_job codec conn j wid s).1).processing_list wid ≡ own)
        × ((conn.view (ack_job codec conn j wid s).1).main_list ≡ (conn.view s).main_list)
  ack_job-front s h =
      let (_, effect) = ack_job_healthy codec conn healthy j wid s written in
      (rw effect (ground (arith, codec.beq_iff p p)), rw effect)

module _ {P S : Type 0} (codec : Codec P) (conn : Redis codec S) (healthy : IsHealthy conn)
    (wid : ℕ) (own : List P) (p : P) (j : ExecutionJob) (js : List ExecutionJob)
    (written : codec.to_string j ≡ some p) where
  -- The job is in hand: its payload is in the processing list and `js` wait.
  abbrev InHand : S → Type 0
  InHand s = ((conn.view s).processing_list wid ≡ p ∷ own) × Holds codec js (conn.view s).main_list

  -- The job is out of the processing list, and `back` has come behind `js`.
  abbrev Done : List ExecutionJob → S → Type 0
  Done back s =
      ((conn.view s).processing_list wid ≡ own) × Holds codec (js ++ back) (conn.view s).main_list

  ack_job-Done : (s : S) → InHand s → Done [] (ack_job codec conn j wid s).1
  ack_job-Done s h =
      let (front, main) = ack_job-front codec conn healthy wid own p j written s h.0 in
      (front, rw (main, append-nil) h.1)

  move_to_dlq-Done : (s : S) → InHand s → Done [] (move_to_dlq codec conn j wid s).1
  move_to_dlq-Done s h =
      let (_, effect) = move_to_dlq_healthy codec conn healthy j wid s written in
      (rw effect (ground (arith, codec.beq_iff p p)), rw (effect, append-nil) h.1)

  push_to_dlq-Done : (k : ExecutionJob) (s : S) → Done [] s → Done [] (push_to_dlq codec conn k s).1
  push_to_dlq-Done k s d =
      let (q, written') = codec.writable k in
      let (_, effect) = push_to_dlq_healthy codec conn healthy k s written' in rw effect d

  enqueue_job-Done :
      (k : ExecutionJob) (s : S) → Done [] s → Done (k ∷ []) (enqueue_job codec conn k s).1
  enqueue_job-Done k s d =
      let (q, written') = codec.writable k in
      let (_, effect) = enqueue_job_healthy codec conn healthy k s written' in
      let waiting = rw append-nil at d.1 in
      rw effect (d.0, Holds-snoc codec js (conn.view s).main_list k q waiting written')

  module _ {D N : Type 0} (pool : Database D) where
    fire_webhook-Done :
        (status : ExecutionStatus) (h e : Option Text) (back : List ExecutionJob) (w : World S D N)
        → Done back w.redis
        → Done back (fire_webhook codec conn pool j status h e w).redis
    fire_webhook-Done status h e back w d =
        rw ((fire_webhook-redis codec conn pool j status h e w).0) d

    re_enqueue_with_bump-Done :
        (w : World S D N)
        → InHand w.redis
        → Done (retried j) (re_enqueue_with_bump codec conn pool j wid w).redis
    unfolding re_enqueue_with_bump
    re_enqueue_with_bump-Done w h = elim (Bool-cases (leb max_job_attempts (j.attempt_count + 1))) [
      | inl last ↦
          rw last
            (fire_webhook-Done _ _ _ [] _ (push_to_dlq-Done (bump j) _ (ack_job-Done w.redis h)))
      | inr more ↦ rw more (enqueue_job-Done (bump j) _ (ack_job-Done w.redis h))
    ]

    settle-Done :
        (outcome : Executed) (w : World S D N)
        → InHand w.redis
        → Done
            (if is_retry outcome then retried j else [])
            (settle codec conn pool j wid outcome w).redis
    unfolding settle
    settle-Done panicked w h = re_enqueue_with_bump-Done w h
    settle-Done (returned r) w h = elim (Bool-cases r.success) [
      | inl success ↦
          rw (success, (fire_webhook-redis codec conn pool j _ _ _ _).0) (ack_job-Done w.redis h)
      | inr failure ↦ elim (Bool-cases (is_revert (error_message r))) [
        | inl back ↦
            rw (failure, back, (fire_webhook-redis codec conn pool j _ _ _ _).0)
              (ack_job-Done w.redis h)
        | inr other ↦ rw (failure, other) (re_enqueue_with_bump-Done w h)
      ]
    ]

    process_job-Done :
        (execute : ExecutionJob → N → Executed × N) (w : World S D N)
        → InHand w.redis
        → Done
            (comes_back j (execute j w.net).0)
            (process_job codec conn pool execute j wid w).redis
    unfolding process_job
    process_job-Done execute w h = elim (Bool-cases (leb max_job_attempts j.attempt_count)) [
      | inl spent ↦
          rw spent (move_to_dlq-Done _ (rw ((fire_webhook-redis codec conn pool j _ _ _ _).0) h))
      | inr left ↦ rw left (settle-Done (execute j w.net).0 _ h)
    ]

module _ {P S D N : Type 0} (codec : Codec P) (conn : Redis codec S) (pool : Database D)
    (execute : ExecutionJob → N → Executed × N) (wid : ℕ) where
  -- While Redis answers, one turn of the loop takes the oldest job off, and puts behind the jobs
  -- that wait what `comes_back` says; the processing list is as it was before the turn.
  pub worker_turn-Holds :
      (j : ExecutionJob) (js : List ExecutionJob) (w : World S D N)
      → IsHealthy conn
      → Holds codec (j ∷ js) (conn.view w.redis).main_list
      → let w' = worker_turn codec conn pool execute wid w in
        Holds codec (js ++ comes_back j (execute j w.net).0) (conn.view w'.redis).main_list
        × ((conn.view w'.redis).processing_list wid ≡ (conn.view w.redis).processing_list wid)
  unfolding worker_turn
  worker_turn-Holds j js w healthy h =
      let (result, waits, (p, written, own), _) =
        dequeue_job-Holds codec conn wid (j ∷ js) w.redis healthy h in
      let d =
        process_job-Done codec conn healthy wid ((conn.view w.redis).processing_list wid) p j js
          written pool execute (record w { redis = (dequeue_job codec conn wid w.redis).1 })
          (own, waits) in
      rw result (d.1, d.0)

  -- On an empty queue a turn changes nothing that the worker can see in Redis.
  pub worker_turn-empty :
      (w : World S D N)
      → IsHealthy conn
      → (conn.view w.redis).main_list ≡ []
      → let w' = worker_turn codec conn pool execute wid w in
        (conn.view w'.redis ≡ conn.view w.redis)
        × (w'.db ≡ w.db)
        × (w'.webhooks ≡ w.webhooks)
        × (w'.net ≡ w.net)
  unfolding worker_turn
  worker_turn-empty w healthy e =
      let (result, same) = dequeue_job_empty codec conn healthy wid w.redis e in
      rw result (same, refl, refl, refl)
