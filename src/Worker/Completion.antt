-- ===== src/Worker/Completion.antt =====
-- src/worker/mod.rs: once the queue has drained, every request that stood in it has ended.
use mathlib.Core.Path.{subst, subst⁻¹}
use agent_execution_platform.Prelude.{
  sym, ℕ, zero, suc, ◌≤◌, ◌≡◌, ◌≢◌, refl, ◌∙◌, ap, Bool, true, false, Option, some, List, [], ◌∷◌,
  ◌++◌, arith, ◌==◌, ==_iff, ◌⊎◌, Bool-cases, Option-cases, inl, inr,
}
use agent_execution_platform.Prelude.Text.{Text}
use agent_execution_platform.Service.{IsHealthy}
use agent_execution_platform.Types.{
  ExecutionJob, ExecutionStatus, confirmed, failed, reverted, status_to_string,
}
use agent_execution_platform.Queue.{Redis}
use agent_execution_platform.Queue.Payloads.{Codec}
use agent_execution_platform.Queue.Order.{Holds}
use agent_execution_platform.Db.{Database}
use agent_execution_platform.Db.Tables.{Tables, option_map, ExecutionRequestRow}
use agent_execution_platform.Db.Status.{status_of, Marked}
use agent_execution_platform.Worker.{
  World, Executed, panicked, returned, bump, worker_turn, run_worker,
}
use agent_execution_platform.Worker.Requeue.{comes_back, worker_turn-Holds, worker_turn-empty}
use agent_execution_platform.Worker.Progress.{total_turns, total_turns-turn}
use agent_execution_platform.Worker.Status.{turn_status, worker_turn-Marked}

abbrev pub is_terminal : ExecutionStatus → Bool
is_terminal confirmed = true
is_terminal failed = true
is_terminal reverted = true
is_terminal other = false

-- The status column names a terminal status: confirmed, failed or reverted.
abbrev pub IsTerminal : Option Text → Type 0
IsTerminal text =
    (s : ExecutionStatus) × (is_terminal s ≡ true) × (text ≡ some (status_to_string s))

-- A job for this request waits.
abbrev pub Waits : ℕ → List ExecutionJob → Type 0
Waits x [] = ⊥
Waits x (j ∷ js) = (j.request_id ≡ x) ⊎ Waits x js

Waits-append_left : (x : ℕ) (js ks : List ExecutionJob) → Waits x js → Waits x (js ++ ks)
Waits-append_left x [] ks h = absurd h
Waits-append_left x (j ∷ js) ks (inl e) = inl e
Waits-append_left x (j ∷ js) ks (inr h) = inr (Waits-append_left x js ks h)

Waits-append_right : (x : ℕ) (js ks : List ExecutionJob) → Waits x ks → Waits x (js ++ ks)
Waits-append_right x [] ks h = h
Waits-append_right x (j ∷ js) ks h = inr (Waits-append_right x js ks h)

-- The request has ended, or a job for it waits; and it is in the table.
abbrev Open : ℕ → List ExecutionJob → Tables → Type 0
Open x js v =
    ((row : ExecutionRequestRow) × (v.requests x ≡ some row))
    × (IsTerminal (status_of x v) ⊎ Waits x js)

-- A turn either brings the request to a terminal status, or the job comes back.
turn_ends :
    (j : ExecutionJob) (o : Executed)
    → (is_terminal (turn_status j o) ≡ true) ⊎ (comes_back j o ≡ bump j ∷ [])
turn_ends j panicked = ground arith
turn_ends j (returned r) = ground arith

row_of_status :
    (x : ℕ) (v : Tables) (t : Text)
    → status_of x v ≡ some t
    → (row : ExecutionRequestRow) × (v.requests x ≡ some row)
row_of_status x v t h = elim (Option-cases (v.requests x)) [
  | inl e ↦ absurd (ground arith)
  | inr found ↦ found
]

Open-turn_own :
    (j : ExecutionJob) (js : List ExecutionJob) (o : Executed) (v v' : Tables)
    → Marked j.request_id (turn_status j o) v v'
    → (row : ExecutionRequestRow) → v.requests j.request_id ≡ some row
    → Open j.request_id (js ++ comes_back j o) v'
Open-turn_own j js o v v' m row e =
    let status = m.marked row e in
    (
      row_of_status j.request_id v' (status_to_string (turn_status j o)) status,
      elim (turn_ends j o) [
        | inl ended ↦ inl (turn_status j o, ended, status)
        | inr back ↦ inr (Waits-append_right j.request_id js (comes_back j o) (rw back (inl refl)))
      ],
    )

Open-turn_other :
    (x : ℕ) (j : ExecutionJob) (js : List ExecutionJob) (o : Executed) (v v' : Tables)
    → Marked j.request_id (turn_status j o) v v'
    → x ≢ j.request_id
    → Open x (j ∷ js) v
    → Open x (js ++ comes_back j o) v'
Open-turn_other x j js o v v' m differ ((row, e), open_) =
    let kept = m.others x differ in
    (
      (row, kept ∙ e),
      elim open_ [
        | inl ended ↦ inl (ended.0, ended.1, ap (option_map (λ r. r.status)) kept ∙ ended.2)
        | inr (inl own) ↦ absurd (differ (sym own))
        | inr (inr rest) ↦ inr (Waits-append_left x js (comes_back j o) rest)
      ],
    )

-- One turn keeps a request open that was open.
Open-turn :
    (x : ℕ) (j : ExecutionJob) (js : List ExecutionJob) (o : Executed) (v v' : Tables)
    → Marked j.request_id (turn_status j o) v v'
    → Open x (j ∷ js) v
    → Open x (js ++ comes_back j o) v'
Open-turn x j js o v v' m h = elim (Bool-cases (j.request_id == x)) [
  | inl same ↦
      let own : j.request_id ≡ x = (==_iff _ _).0 same in
      let found : v.requests j.request_id ≡ some h.0.0 = rw own h.0.1 in
      subst (λ k. Open k (js ++ comes_back j o) v') own (Open-turn_own j js o v v' m h.0.0 found)
  | inr differ ↦ Open-turn_other x j js o v v' m (λ e. ground arith) h
]

module _ {P S D N : Type 0} (codec : Codec P) (conn : Redis codec S) (pool : Database D)
    (execute : ExecutionJob → N → Executed × N) (wid : ℕ) where
  run_worker-Open :
      (turns : ℕ) (x : ℕ) (js : List ExecutionJob) (w : World S D N)
      → IsHealthy conn
      → IsHealthy pool
      → Holds codec js (conn.view w.redis).main_list
      → total_turns js ≤ turns
      → Open x js (pool.view w.db)
      → IsTerminal (status_of x (pool.view (run_worker codec conn pool execute turns wid w).db))
  unfolding run_worker
  run_worker-Open zero x [] w healthy answers h le (row, inl ended) = ended
  run_worker-Open zero x [] w healthy answers h le (row, inr waits) = absurd waits
  run_worker-Open zero x (j ∷ js) w healthy answers h le o =
      absurd (omega (arith, total_turns-turn j js panicked))
  run_worker-Open (suc n) x [] w healthy answers h le o =
      let (same, db, _, _) = worker_turn-empty codec conn pool execute wid w healthy h in
      run_worker-Open n x [] (worker_turn codec conn pool execute wid w) healthy answers (rw same h)
        (omega arith) (subst⁻¹ (λ d. Open x [] (pool.view d)) db o)
  run_worker-Open (suc n) x (j ∷ js) w healthy answers h le o =
      let outcome = (execute j w.net).0 in
      let w' = worker_turn codec conn pool execute wid w in
      run_worker-Open n x (js ++ comes_back j outcome) w' healthy answers
        (worker_turn-Holds codec conn pool execute wid j js w healthy h).0
        (omega (arith, total_turns-turn j js outcome))
        (Open-turn x j js outcome (pool.view w.db) (pool.view w'.db)
          (worker_turn-Marked codec conn pool execute wid j js w healthy answers h) o)

  -- While Redis and PostgreSQL answer, every request that is in the table and has a job waiting is
  -- confirmed, reverted or failed after at most three turns for each waiting job, whatever the
  -- executions return.
  pub run_worker-IsTerminal :
      (turns : ℕ) (x : ℕ) (js : List ExecutionJob) (w : World S D N) (row : ExecutionRequestRow)
      → IsHealthy conn
      → IsHealthy pool
      → Holds codec js (conn.view w.redis).main_list
      → total_turns js ≤ turns
      → (pool.view w.db).requests x ≡ some row
      → Waits x js
      → IsTerminal (status_of x (pool.view (run_worker codec conn pool execute turns wid w).db))
  run_worker-IsTerminal turns x js w row healthy answers h le found waits =
      run_worker-Open turns x js w healthy answers h le ((row, found), inr waits)
