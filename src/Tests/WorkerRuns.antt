-- ===== src/Tests/WorkerRuns.antt =====
-- The worker of src/worker/mod.rs at small inputs.
use agent_execution_platform.Prelude.{◌≤◌, ◌≡◌, refl, [], ◌∷◌, arith, inl, inr}
use agent_execution_platform.Queue.Lists.{redis_apply}
use agent_execution_platform.Queue.Order.{Holds}
use agent_execution_platform.Db.Tables.{db_apply}
use agent_execution_platform.Db.Status.{Marked, status_of}
use agent_execution_platform.Worker.{panicked, worker_turn, run_worker}
use agent_execution_platform.Worker.Requeue.{worker_turn-Holds}
use agent_execution_platform.Worker.Progress.{run_worker-executions}
use agent_execution_platform.Worker.Status.{turn_status, worker_turn-Marked}
use agent_execution_platform.Worker.Completion.{IsTerminal, run_worker-IsTerminal}
use agent_execution_platform.Tests.Fixtures.{
  plain, redis, postgres, instant-IsHealthy, job, row, two_waiting, tables, world, always_fails,
}

abbrev jobs_waiting : Holds plain (job 1 0 ∷ job 2 0 ∷ []) two_waiting.main_list
jobs_waiting = (job 1 0, job 2 0 ∷ [], refl, refl, (job 2 0, [], refl, refl, refl))

worker_turn-Holds_example :
    let w' = worker_turn plain redis postgres always_fails 4 world in
    Holds plain (job 2 0 ∷ job 1 1 ∷ []) w'.redis.main_list × (w'.redis.processing_list 4 ≡ [])
worker_turn-Holds_example =
    worker_turn-Holds plain redis postgres always_fails 4 (job 1 0) (job 2 0 ∷ []) world
      (instant-IsHealthy (redis_apply plain.beq)) jobs_waiting

run_worker-executions_example : (run_worker plain redis postgres always_fails 9 4 world).net ≤ 6
run_worker-executions_example =
    run_worker-executions plain redis postgres always_fails 4 (λ n. n) (λ j n. omega arith) 9
      (job 1 0 ∷ job 2 0 ∷ []) world (instant-IsHealthy (redis_apply plain.beq)) jobs_waiting

worker_turn-Marked_example :
    Marked 1
      (turn_status (job 1 0) panicked)
      tables
      (worker_turn plain redis postgres always_fails 4 world).db
worker_turn-Marked_example =
    worker_turn-Marked plain redis postgres always_fails 4 (job 1 0) (job 2 0 ∷ []) world
      (instant-IsHealthy (redis_apply plain.beq)) (instant-IsHealthy db_apply) jobs_waiting

run_worker-IsTerminal_example :
    IsTerminal (status_of 2 (run_worker plain redis postgres always_fails 6 4 world).db)
run_worker-IsTerminal_example =
    run_worker-IsTerminal plain redis postgres always_fails 4 6 2 (job 1 0 ∷ job 2 0 ∷ []) world
      (row 2) (instant-IsHealthy (redis_apply plain.beq)) (instant-IsHealthy db_apply) jobs_waiting
      (omega arith) refl (inr (inl refl))
