-- ===== src/Queue/Traces.antt =====
-- The main queue of src/queue/mod.rs under any interleaving of clients and workers.
use agent_execution_platform.Prelude.{ℕ, ◌≡◌, refl, Option, none, some, List, [], ◌∷◌, ◌++◌, arith}
use agent_execution_platform.Prelude.Results.{ok}
use agent_execution_platform.Prelude.Actions.{Action, pure, ◌>>=◌, ◌>>◌}
use agent_execution_platform.Service.{IsHealthy}
use agent_execution_platform.Types.{ExecutionJob}
use agent_execution_platform.Queue.{Redis, QueueError, enqueue_job, dequeue_job, ack_job}
use agent_execution_platform.Queue.Payloads.{Codec}
use agent_execution_platform.Queue.Healthy.{ack_job_healthy}
use agent_execution_platform.Queue.Order.{Holds, enqueue_job-Holds, dequeue_job-Holds}

-- A client hands in a job, a worker takes one, or a worker acknowledges one.
pub data QueueCall : Type 0 where
  enqueue : ExecutionJob → QueueCall
  dequeue : ℕ → QueueCall
  ack : ExecutionJob → ℕ → QueueCall

-- A queue as it is meant: the answers to the dequeues, and the jobs that wait in the end.
abbrev pub first_in_first_out :
    List QueueCall → List ExecutionJob → List (Option ExecutionJob) × List ExecutionJob
first_in_first_out [] js = ([], js)
first_in_first_out (enqueue j ∷ calls) js = first_in_first_out calls (js ++ j ∷ [])
first_in_first_out (ack j w ∷ calls) js = first_in_first_out calls js
first_in_first_out (dequeue w ∷ calls) [] =
    let (answers, rest) = first_in_first_out calls [] in (none ∷ answers, rest)
first_in_first_out (dequeue w ∷ calls) (j ∷ js) =
    let (answers, rest) = first_in_first_out calls js in (some j ∷ answers, rest)

module _ {P S : Type 0} (codec : Codec P) (conn : Redis codec S) where
  abbrev pub run_calls : List QueueCall → Action S QueueError (List (Option ExecutionJob))
  run_calls [] = pure []
  run_calls (enqueue j ∷ calls) = do enqueue_job codec conn j; run_calls calls
  run_calls (ack j w ∷ calls) = do ack_job codec conn j w; run_calls calls
  run_calls (dequeue w ∷ calls) = do
    answer ← dequeue_job codec conn w
    answers ← run_calls calls
    pure (answer ∷ answers)

  -- While Redis answers, any sequence of calls, by whichever clients and workers, gives the answers of
  -- a first-in first-out queue, and leaves the jobs waiting that such a queue leaves, in its order.
  pub run_calls-first_in_first_out :
      (calls : List QueueCall) (js : List ExecutionJob) (s : S)
      → IsHealthy conn
      → Holds codec js (conn.view s).main_list
      → ((run_calls calls s).0 ≡ ok (first_in_first_out calls js).0)
        × Holds codec (first_in_first_out calls js).1 (conn.view (run_calls calls s).1).main_list
  run_calls-first_in_first_out [] js s healthy h = (refl, h)
  run_calls-first_in_first_out (enqueue j ∷ calls) js s healthy h =
      let (result, waits) = enqueue_job-Holds codec conn js j s healthy h in
      let (answers, rest) =
        run_calls-first_in_first_out calls (js ++ j ∷ []) (enqueue_job codec conn j s).1 healthy
          waits in
      ground (arith, result, answers, rest)
  run_calls-first_in_first_out (ack j w ∷ calls) js s healthy h =
      let (p, written) = codec.writable j in
      let (result, effect) = ack_job_healthy codec conn healthy j w s written in
      let (answers, rest) =
        run_calls-first_in_first_out calls js (ack_job codec conn j w s).1 healthy (rw effect h) in
      ground (arith, result, answers, rest)
  run_calls-first_in_first_out (dequeue w ∷ calls) [] s healthy h =
      let (result, same) = dequeue_job-Holds codec conn w [] s healthy h in
      let (answers, rest) =
        run_calls-first_in_first_out calls [] (dequeue_job codec conn w s).1 healthy (rw same h) in
      ground (arith, result, answers, rest)
  run_calls-first_in_first_out (dequeue w ∷ calls) (j ∷ js) s healthy h =
      let (result, waits, own, dead) = dequeue_job-Holds codec conn w (j ∷ js) s healthy h in
      let (answers, rest) =
        run_calls-first_in_first_out calls js (dequeue_job codec conn w s).1 healthy waits in
      ground (arith, result, answers, rest)
