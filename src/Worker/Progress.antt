-- ===== src/Worker/Progress.antt =====
-- src/worker/mod.rs: every job leaves the queue after a bounded number of turns, and no job is
-- executed more often than `MAX_JOB_ATTEMPTS` allows, whatever the executions return.
use agent_execution_platform.Prelude.{
  ℕ, zero, suc, ◌+◌, ◌-◌, ◌≤◌, ◌≡◌, refl, ap, Bool, true, false, Option, List, [], ◌∷◌, ◌++◌, arith,
  leb, if◌then◌else◌, Bool-cases, inl, inr,
}
use agent_execution_platform.Prelude.Text.{Text}
use agent_execution_platform.Service.{IsHealthy}
use agent_execution_platform.Types.{ExecutionJob, ExecutionStatus}
use agent_execution_platform.Queue.{Redis, max_job_attempts}
use agent_execution_platform.Queue.Payloads.{Codec}
use agent_execution_platform.Queue.Order.{Holds, dequeue_job-Holds}
use agent_execution_platform.Db.{Database}
use agent_execution_platform.Worker.{
  World, Executed, panicked, returned, re_enqueue_with_bump, settle, fire_webhook, process_job,
  error_message, is_revert, worker_turn, run_worker,
}
use agent_execution_platform.Worker.Requeue.{
  is_retry, comes_back, worker_turn-Holds, worker_turn-empty,
}

-- The executions that the attempt count still allows a job.
abbrev pub attempts_left : ExecutionJob → ℕ
attempts_left j = max_job_attempts - j.attempt_count

abbrev pub total_attempts_left : List ExecutionJob → ℕ
total_attempts_left [] = 0
total_attempts_left (j ∷ js) = attempts_left j + total_attempts_left js

-- The turns of the loop that a job can take: one for each execution, and one for a job that has
-- none left.
abbrev pub turns_left : ExecutionJob → ℕ
turns_left j = if leb max_job_attempts j.attempt_count then 1 else attempts_left j

abbrev pub total_turns : List ExecutionJob → ℕ
total_turns [] = 0
total_turns (j ∷ js) = turns_left j + total_turns js

total_turns-append :
    (xs ys : List ExecutionJob) → total_turns (xs ++ ys) ≡ total_turns xs + total_turns ys
total_turns-append [] ys = omega arith
total_turns-append (x ∷ xs) ys = omega (arith, total_turns-append xs ys)

total_attempts_left-append :
    (xs ys : List ExecutionJob)
    → total_attempts_left (xs ++ ys) ≡ total_attempts_left xs + total_attempts_left ys
total_attempts_left-append [] ys = omega arith
total_attempts_left-append (x ∷ xs) ys = omega (arith, total_attempts_left-append xs ys)

comes_back-fewer :
    (j : ExecutionJob) (o : Executed) → suc (total_turns (comes_back j o)) ≤ turns_left j
comes_back-fewer j o = elim (Bool-cases (is_retry o)) [
  | inl e ↦ rw e (ground arith)
  | inr e ↦ rw e (ground arith)
]

left_of : (j : ExecutionJob) → leb max_job_attempts j.attempt_count ≡ false → 1 ≤ attempts_left j
left_of j e = ground arith

comes_back-attempts :
    (j : ExecutionJob) (o : Executed)
    → total_attempts_left (comes_back j o)
      ≤ (if leb max_job_attempts j.attempt_count then 0 else attempts_left j - 1)
comes_back-attempts j o = elim (Bool-cases (is_retry o)) [
  | inl e ↦ rw e (ground arith)
  | inr e ↦ rw e (ground arith)
]

if_push :
    {A : Type 0} (f : A → ℕ) (b : Bool) (x y : A)
    → f (if b then x else y) ≡ (if b then f x else f y)
if_push f true x y = refl
if_push f false x y = refl

-- `n` executions become `n'` by a turn for `j`.
attempts-turn :
    (j : ExecutionJob) (js : List ExecutionJob) (o : Executed) (n n' : ℕ)
    → n' ≤ suc n
    → (if leb max_job_attempts j.attempt_count then n else n')
        + total_attempts_left (js ++ comes_back j o)
      ≤ n + total_attempts_left (j ∷ js)
attempts-turn j js o n n' h =
    ground
      (arith, total_attempts_left-append js (comes_back j o), comes_back-attempts j o, left_of j)

pub total_turns-turn :
    (j : ExecutionJob) (js : List ExecutionJob) (o : Executed)
    → suc (total_turns (js ++ comes_back j o)) ≤ total_turns (j ∷ js)
total_turns-turn j js o =
    omega (arith, total_turns-append js (comes_back j o), comes_back-fewer j o)

module _ {P S D N : Type 0} (codec : Codec P) (conn : Redis codec S) (pool : Database D) where
  fire_webhook-net :
      (j : ExecutionJob) (status : ExecutionStatus) (h e : Option Text) (w : World S D N)
      → (fire_webhook codec conn pool j status h e w).net ≡ w.net
  unfolding fire_webhook
  fire_webhook-net j status h e w = ground arith

  re_enqueue_with_bump-net :
      (j : ExecutionJob) (wid : ℕ) (w : World S D N)
      → (re_enqueue_with_bump codec conn pool j wid w).net ≡ w.net
  unfolding re_enqueue_with_bump
  re_enqueue_with_bump-net j wid w =
      elim (Bool-cases (leb max_job_attempts (j.attempt_count + 1))) [
        | inl last ↦ rw last (fire_webhook-net j _ _ _ _)
        | inr more ↦ rw more
      ]

  settle-net :
      (j : ExecutionJob) (wid : ℕ) (o : Executed) (w : World S D N)
      → (settle codec conn pool j wid o w).net ≡ w.net
  unfolding settle
  settle-net j wid panicked w = re_enqueue_with_bump-net j wid w
  settle-net j wid (returned r) w = elim (Bool-cases r.success) [
    | inl e ↦ rw e (fire_webhook-net j _ _ _ _)
    | inr e ↦ elim (Bool-cases (is_revert (error_message r))) [
      | inl f ↦ rw (e, f) (fire_webhook-net j _ _ _ _)
      | inr f ↦ rw (e, f) (re_enqueue_with_bump-net j wid w)
    ]
  ]

  process_job-net :
      (execute : ExecutionJob → N → Executed × N) (j : ExecutionJob) (wid : ℕ) (w : World S D N)
      → (process_job codec conn pool execute j wid w).net
        ≡ (if leb max_job_attempts j.attempt_count then w.net else (execute j w.net).1)
  unfolding process_job
  process_job-net execute j wid w = elim (Bool-cases (leb max_job_attempts j.attempt_count)) [
    | inl e ↦ rw e (fire_webhook-net j _ _ _ _)
    | inr e ↦ rw e (settle-net j wid _ _)
  ]

module _ {P S D N : Type 0} (codec : Codec P) (conn : Redis codec S) (pool : Database D)
    (execute : ExecutionJob → N → Executed × N) (wid : ℕ) where
  module _ (executions : N → ℕ)
      (counted : (j : ExecutionJob) (n : N) → executions (execute j n).1 ≤ suc (executions n)) where
    worker_turn-executions :
        (j : ExecutionJob) (js : List ExecutionJob) (w : World S D N)
        → IsHealthy conn
        → Holds codec (j ∷ js) (conn.view w.redis).main_list
        → executions (worker_turn codec conn pool execute wid w).net
            + total_attempts_left (js ++ comes_back j (execute j w.net).0)
          ≤ executions w.net + total_attempts_left (j ∷ js)
    unfolding worker_turn
    worker_turn-executions j js w healthy h =
        let (result, _, _, _) = dequeue_job-Holds codec conn wid (j ∷ js) w.redis healthy h in
        rw
          (
            result,
            process_job-net,
            if_push executions (leb max_job_attempts j.attempt_count) w.net (execute j w.net).1,
          )
          (attempts-turn j js (execute j w.net).0 (executions w.net)
            (executions (execute j w.net).1) (counted j w.net))

    -- While Redis answers, the executions made in any number of turns are no more than the attempts
    -- that the waiting jobs had left, at most three for each.
    pub run_worker-executions :
        (turns : ℕ) (js : List ExecutionJob) (w : World S D N)
        → IsHealthy conn
        → Holds codec js (conn.view w.redis).main_list
        → executions (run_worker codec conn pool execute turns wid w).net
          ≤ executions w.net + total_attempts_left js
    unfolding run_worker
    run_worker-executions zero js w healthy h = omega arith
    run_worker-executions (suc n) [] w healthy h =
        let (same, _, _, net) = worker_turn-empty codec conn pool execute wid w healthy h in
        let rest =
          run_worker-executions n [] (worker_turn codec conn pool execute wid w) healthy
            (rw same h) in
        omega (arith, rest, ap executions net)
    run_worker-executions (suc n) (j ∷ js) w healthy h =
        let (waits, back) = worker_turn-Holds codec conn pool execute wid j js w healthy h in
        omega (
          arith,
          worker_turn-executions j js w healthy h,
          run_worker-executions n (js ++ comes_back j (execute j w.net).0)
              (worker_turn codec conn pool execute wid w) healthy waits,
        )
