-- ===== src/Queue/Conservation.antt =====
-- src/queue/mod.rs: no payload is lost on the way from the main queue to a processing list and
-- back, whatever Redis answers.
use agent_execution_platform.Prelude.{
  ℕ, zero, suc, ◌+◌, ◌≡◌, ◌≢◌, refl, ◌∙◌, Bool, Option, none, some, List, [], ◌∷◌, arith,
  Option-cases, inl, inr,
}
use agent_execution_platform.Prelude.Actions.{bind_inv}
use agent_execution_platform.Service.{call_inv}
use agent_execution_platform.Types.{ExecutionJob}
use agent_execution_platform.Queue.{
  Redis, command, dequeue_job, recover_loop, recover_stale_jobs, read_payload, dequeued,
}
use agent_execution_platform.Queue.Lists.{
  Store, Key, main_queue, processing, dead_letter, lmove, lrem, lpush, redis_apply, Reply, size,
  element, pop_right,
}
use agent_execution_platform.Queue.Payloads.{Codec}
use agent_execution_platform.Queue.Counts.{
  total, occurrences-pop_right, occurrences-remove_first_ne,
}

module _ {P : Type 0} (beq : P → P → Bool) (w : ℕ) (q : P) where
  -- The move out of the main queue into the processing list.
  total-take :
      (v : Store P)
      → total beq w q (redis_apply beq (lmove main_queue (processing w)) v).1 ≡ total beq w q v
  unfolding redis_apply
  total-take v = elim (Option-cases (pop_right v.main_list)) [
    | inl e ↦ ground arith
    | inr ((x, l), e) ↦ ground (arith, occurrences-pop_right beq q v.main_list x l e)
  ]

  total-return :
      (v : Store P)
      → total beq w q (redis_apply beq (lmove (processing w) main_queue) v).1 ≡ total beq w q v
  unfolding redis_apply
  total-return v = elim (Option-cases (pop_right (v.processing_list w))) [
    | inl e ↦ ground arith
    | inr ((x, l), e) ↦ ground (arith, occurrences-pop_right beq q (v.processing_list w) x l e)
  ]

module _ {P S : Type 0} (codec : Codec P) (conn : Redis codec S) (w : ℕ) (q : P) where
  abbrev count_at : S → ℕ
  count_at s = total codec.beq w q (conn.view s)

  total-call_lmove_out :
      (s : S) → count_at (conn.call (lmove main_queue (processing w)) s).1 ≡ count_at s
  total-call_lmove_out s =
      call_inv conn (λ v. total codec.beq w q v ≡ count_at s) _ s refl
        (total-take codec.beq w q (conn.view s))

  total-call_lmove_back :
      (s : S) → count_at (conn.call (lmove (processing w) main_queue) s).1 ≡ count_at s
  total-call_lmove_back s =
      call_inv conn (λ v. total codec.beq w q v ≡ count_at s) _ s refl
        (total-return codec.beq w q (conn.view s))

  total-call_lrem_ne :
      (p : P) (s : S) → q ≢ p → count_at (conn.call (lrem (processing w) p) s).1 ≡ count_at s
  unfolding redis_apply
  total-call_lrem_ne p s h =
      call_inv conn (λ v. total codec.beq w q v ≡ count_at s) _ s refl
        (ground (
          arith,
          occurrences-remove_first_ne codec.beq codec.beq_iff p q ((conn.view s).processing_list w)
              h,
        ))

  total-call_lpush_ne :
      (p : P) (k : Key) (s : S) → q ≢ p → count_at (conn.call (lpush k p) s).1 ≡ count_at s
  unfolding redis_apply
  total-call_lpush_ne p k s h =
      call_inv conn (λ v. total codec.beq w q v ≡ count_at s) _ s refl
        (ground (arith, codec.beq_iff q p))

  read_payload-total :
      (p : P) (o : Option ExecutionJob) (s : S)
      → (o ≡ none → q ≢ p)
      → count_at (read_payload codec conn w p o s).1 ≡ count_at s
  unfolding read_payload
  read_payload-total p (some job) s h = refl
  read_payload-total p none s h =
      total-call_lpush_ne p dead_letter (conn.call (lrem (processing w) p) s).1 (h refl)
      ∙ total-call_lrem_ne p s (h refl)

  dequeued-total :
      (j : ExecutionJob) (reply : Reply P) (s : S)
      → codec.from_str q ≡ some j
      → count_at (dequeued codec conn w reply s).1 ≡ count_at s
  unfolding dequeued
  dequeued-total j (size n) s h = refl
  dequeued-total j (element none) s h = refl
  dequeued-total j (element (some p)) s h =
      read_payload-total p (codec.from_str p) s (λ unread same. cc)

  -- A payload that can be read stays in the worker's lists through every dequeue: with each
  -- answer of Redis, errors and lost replies included, its count is what it was.
  pub dequeue_job-total :
      (j : ExecutionJob) (s : S)
      → codec.from_str q ≡ some j
      → total codec.beq w q (conn.view (dequeue_job codec conn w s).1)
        ≡ total codec.beq w q (conn.view s)
  unfolding dequeue_job command
  dequeue_job-total j s h =
      bind_inv (λ t. count_at t ≡ count_at s) (dequeued codec conn w)
        (command codec conn (lmove main_queue (processing w))) s (total-call_lmove_out s)
        (λ reply _. dequeued-total j reply _ h ∙ total-call_lmove_out s)

  recover_loop-total :
      (fuel n : ℕ) (s : S) → count_at (recover_loop codec conn fuel w n s).1 ≡ count_at s
  unfolding recover_loop
  recover_loop-total zero n s = refl
  recover_loop-total (suc fuel) n s = ground (
    arith,
    total-call_lmove_back s,
    recover_loop-total fuel (n + 1) (conn.call (lmove (processing w) main_queue) s).1,
  )

  -- Recovery moves payloads and loses none, however Redis answers and wherever it stops.
  pub recover_stale_jobs-total :
      (fuel : ℕ) (s : S)
      → total codec.beq w q (conn.view (recover_stale_jobs codec conn fuel w s).1)
        ≡ total codec.beq w q (conn.view s)
  unfolding recover_stale_jobs
  recover_stale_jobs-total fuel s = recover_loop-total fuel 0 s

  -- A dequeue, or a recovery with this much fuel, of the worker, whatever it answers.
  abbrev pub turn : Option ℕ → S → S
  turn none s = (dequeue_job codec conn w s).1
  turn (some fuel) s = (recover_stale_jobs codec conn fuel w s).1

  abbrev pub turns : List (Option ℕ) → S → S
  turns [] s = s
  turns (t ∷ ts) s = turns ts (turn t s)

  -- A payload that can be read stays in the worker's lists through dequeues and recoveries, in any
  -- number and order: with each answer of Redis, errors and lost replies included, and wherever a
  -- recovery stops, its count is what it was.
  pub turns-total :
      (j : ExecutionJob) (ts : List (Option ℕ)) (s : S)
      → codec.from_str q ≡ some j
      → total codec.beq w q (conn.view (turns ts s)) ≡ total codec.beq w q (conn.view s)
  turns-total j [] s h = refl
  turns-total j (none ∷ ts) s h =
      turns-total j ts (dequeue_job codec conn w s).1 h ∙ dequeue_job-total j s h
  turns-total j (some fuel ∷ ts) s h =
      turns-total j ts (recover_stale_jobs codec conn fuel w s).1 h
      ∙ recover_stale_jobs-total fuel s
