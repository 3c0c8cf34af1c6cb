-- ===== src/Tests/QueueRuns.antt =====
-- The queue of src/queue/mod.rs at small inputs.
use agent_execution_platform.Prelude.{◌≡◌, refl, some, none, List, [], ◌∷◌, arith}
use agent_execution_platform.Prelude.Results.{ok}
use agent_execution_platform.Types.{ExecutionJob}
use agent_execution_platform.Queue.{recover_stale_jobs}
use agent_execution_platform.Queue.Lists.{redis_apply, Store}
use agent_execution_platform.Queue.Counts.{total}
use agent_execution_platform.Queue.Conservation.{turns, turns-total}
use agent_execution_platform.Queue.Order.{Holds}
use agent_execution_platform.Queue.Traces.{
  QueueCall, enqueue, dequeue, ack, run_calls, run_calls-first_in_first_out,
}
use agent_execution_platform.Queue.Recovery.{Recovered, recover_stale_jobs_total}
use agent_execution_platform.Tests.Fixtures.{plain, redis, instant-IsHealthy, job, two_waiting}

two_waiting-Holds : Holds plain (job 1 0 ∷ job 2 0 ∷ []) two_waiting.main_list
two_waiting-Holds = (job 1 0, job 2 0 ∷ [], refl, refl, (job 2 0, [], refl, refl, refl))

turns-total_example :
    total plain.beq 4
      (job 1 0)
      (turns plain redis 4 (job 1 0) (none ∷ some 2 ∷ none ∷ []) two_waiting)
    ≡ total plain.beq 4 (job 1 0) two_waiting
turns-total_example =
    turns-total plain redis 4 (job 1 0) (job 1 0) (none ∷ some 2 ∷ none ∷ []) two_waiting refl

-- One job comes in; two workers take jobs, and then one of them finds the queue empty.
abbrev calls : List QueueCall
calls = enqueue (job 3 0) ∷ dequeue 4 ∷ dequeue 5 ∷ ack (job 1 0) 4 ∷ dequeue 4 ∷ dequeue 5 ∷ []

run_calls-first_in_first_out_example :
    ((run_calls plain redis calls two_waiting).0
      ≡ ok (some (job 1 0) ∷ some (job 2 0) ∷ some (job 3 0) ∷ none ∷ []))
    × Holds plain [] (run_calls plain redis calls two_waiting).1.main_list
run_calls-first_in_first_out_example =
    run_calls-first_in_first_out plain redis calls (job 1 0 ∷ job 2 0 ∷ []) two_waiting
      (instant-IsHealthy (redis_apply plain.beq)) two_waiting-Holds

-- A worker that stopped with two jobs in hand.
abbrev stale : Store ExecutionJob
stale = record two_waiting { processing_list = λ _. job 8 1 ∷ job 9 0 ∷ [] }

recover_stale_jobs_total_example :
    ((recover_stale_jobs plain redis 3 4 stale).0 ≡ ok 2)
    × Recovered 4 stale (recover_stale_jobs plain redis 3 4 stale).1
recover_stale_jobs_total_example =
    recover_stale_jobs_total plain redis (instant-IsHealthy (redis_apply plain.beq)) 4 3 stale
      (omega arith)

recovered_run :
    (recover_stale_jobs plain redis 3 4 stale).1.main_list
    ≡ job 8 1 ∷ job 9 0 ∷ job 2 0 ∷ job 1 0 ∷ []
unfolding recover_stale_jobs redis_apply
recovered_run = refl
