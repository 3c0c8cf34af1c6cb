-- ===== src/Queue/Order.antt =====
-- The main queue of src/queue/mod.rs refines a first-in first-out queue of jobs.
use agent_execution_platform.Prelude.{ℕ, ◌≡◌, refl, none, some, List, [], ◌∷◌, ◌++◌, arith}
use agent_execution_platform.Prelude.Results.{ok}
use agent_execution_platform.Service.{IsHealthy}
use agent_execution_platform.Types.{ExecutionJob}
use agent_execution_platform.Queue.{Redis, enqueue_job, dequeue_job, ack_job}
use agent_execution_platform.Queue.Payloads.{Codec}
use agent_execution_platform.Queue.Healthy.{
  enqueue_job_healthy, dequeue_job_empty, dequeue_job_oldest, ack_job_healthy,
}

module _ {P : Type 0} (codec : Codec P) where
  -- The Redis list holds these jobs, the oldest first, as the codec writes them.
  abbrev pub Holds : List ExecutionJob → List P → Type 0
  Holds [] l = l ≡ []
  Holds (j ∷ js) l =
      (p : P) × (rest : List P) × (l ≡ rest ++ p ∷ [])
      × (codec.to_string j ≡ some p)
      × Holds js rest

  pub Holds-snoc :
      (js : List ExecutionJob) (l : List P) (j : ExecutionJob) (p : P)
      → Holds js l
      → codec.to_string j ≡ some p
      → Holds (js ++ j ∷ []) (p ∷ l)
  Holds-snoc [] l j p h e = (p, [], rw h, e, refl)
  Holds-snoc (i ∷ js) l j p (q, rest, split, written, h) e =
      (q, p ∷ rest, rw split, written, Holds-snoc js rest j p h e)

module _ {P S : Type 0} (codec : Codec P) (conn : Redis codec S) where
  -- What one `dequeue_job` does to a queue that holds `js`: nothing on the empty one, and
  -- otherwise it hands out the oldest job, whose payload is now in the worker's processing list.
  abbrev pub Dequeues : ℕ → List ExecutionJob → S → Type 0
  Dequeues w [] s =
      ((dequeue_job codec conn w s).0 ≡ ok none)
      × (conn.view (dequeue_job codec conn w s).1 ≡ conn.view s)
  Dequeues w (j ∷ js) s =
      let s' = (dequeue_job codec conn w s).1 in
      ((dequeue_job codec conn w s).0 ≡ ok (some j))
      × Holds codec js (conn.view s').main_list
      × ((p : P) × (codec.to_string j ≡ some p)
          × ((conn.view s').processing_list w ≡ p ∷ (conn.view s).processing_list w))
      × ((conn.view s').dead_letter_list ≡ (conn.view s).dead_letter_list)

  -- While Redis answers, `enqueue_job` succeeds and puts its job behind all that wait.
  pub enqueue_job-Holds :
      (js : List ExecutionJob) (j : ExecutionJob) (s : S)
      → IsHealthy conn
      → Holds codec js (conn.view s).main_list
      → let (r, s') = enqueue_job codec conn j s in
        (r ≡ ok tt) × Holds codec (js ++ j ∷ []) (conn.view s').main_list
  enqueue_job-Holds js j s healthy h =
      let (p, written) = codec.writable j in
      let (result, effect) = enqueue_job_healthy codec conn healthy j s written in
      (result, rw effect (Holds-snoc codec js (conn.view s).main_list j p h written))

  -- While Redis answers, `dequeue_job` takes the oldest job off, and returns none on the empty
  -- queue only.
  pub dequeue_job-Holds :
      (w : ℕ) (js : List ExecutionJob) (s : S)
      → IsHealthy conn
      → Holds codec js (conn.view s).main_list
      → Dequeues w js s
  dequeue_job-Holds w [] s healthy h = dequeue_job_empty codec conn healthy w s h
  dequeue_job-Holds w (j ∷ js) s healthy (p, rest, split, written, h) =
      let (result, effect) =
        dequeue_job_oldest codec conn healthy w s j rest p split (codec.round_trip j p written) in
      (result, rw effect h, (p, written, rw effect (ground arith)), rw effect)

  -- A job that was dequeued and then acknowledged is gone from the processing list, which is as it
  -- was before the dequeue; the jobs that wait stay.
  pub ack_job-dequeue_job :
      (w : ℕ) (j : ExecutionJob) (js : List ExecutionJob) (s : S)
      → IsHealthy conn
      → Holds codec (j ∷ js) (conn.view s).main_list
      → let s' = (dequeue_job codec conn w s).1 in
        let (r, s'') = ack_job codec conn j w s' in
        (r ≡ ok tt)
        × ((conn.view s'').processing_list w ≡ (conn.view s).processing_list w)
        × Holds codec js (conn.view s'').main_list
        × ((conn.view s'').dead_letter_list ≡ (conn.view s).dead_letter_list)
  ack_job-dequeue_job w j js s healthy h =
      let (result, waits, (p, written, own), dead) = dequeue_job-Holds w (j ∷ js) s healthy h in
      let (acked, effect) =
        ack_job_healthy codec conn healthy j w (dequeue_job codec conn w s).1 written in
      (acked, rw (effect) (ground (arith, codec.beq_iff p p)), rw effect waits, rw effect dead)
