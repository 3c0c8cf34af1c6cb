-- ===== src/Api/Steps.antt =====
-- src/api/services/mod.rs: what the single steps of `handle_execute` do to the queue.
use agent_execution_platform.Prelude.{
  ℕ, ◌≡◌, ◌⊎◌, refl, inl, inr, Option, none, some, List, Option-cases, arith,
}
use mathlib.Core.Path.{subst}
use agent_execution_platform.Prelude.Text.{Text}
use agent_execution_platform.Prelude.Results.{Result, ok, err, Result-cases}
use agent_execution_platform.Prelude.Actions.{Action, ◌>>=◌}
use agent_execution_platform.Types.{
  ExecutionRequest, ExecutionResponse, ExecutionJob, queued, failed,
}
use agent_execution_platform.Queue.{Redis, enqueue_job}
use agent_execution_platform.Queue.Payloads.{Codec}
use agent_execution_platform.Db.Tables.{ApiKeyRow, find_id}
use agent_execution_platform.Db.Keys.{hash_stored, lookup_keys}
use agent_execution_platform.Db.{Database, update_execution_status, get_api_key_hash_by_id}
use agent_execution_platform.Worker.{World}
use agent_execution_platform.Api.{ApiError, Services, secret_for, queue_up}

-- A job whose webhook is signed, if it has one, with the stored hash of the API key.
abbrev pub HasSecret : List ApiKeyRow → ℕ → Option Text → Option Text → Type 0
HasSecret keys api_key_id none secret = secret ≡ none
HasSecret keys api_key_id (some url) secret =
    (row : ApiKeyRow) × (find_id api_key_id keys ≡ some row) × (secret ≡ some row.key_hash)

module _ {P S D N : Type 0} (codec : Codec P) (conn : Redis codec S) (pool : Database D)
    (services : Services N) (keys : List ApiKeyRow) (api_key_id : ℕ) where
  -- How a request ends, by the connection to Redis and the answer. Either Redis was not called, and
  -- an answer says failed; or one job was handed to `enqueue_job`, not attempted yet and with the
  -- secret that its webhook needs, and an answer says that this job is queued, as it is.
  abbrev pub Handled : S → Result ApiError ExecutionResponse × World S D N → Type 0
  Handled s done =
      ((done.1.redis ≡ s) × ((a : ExecutionResponse) → done.0 ≡ ok a → a.status ≡ failed))
      ⊎ ((job : ExecutionJob) × (job.attempt_count ≡ 0)
          × HasSecret keys api_key_id job.callback_url job.api_key_hash
          × (done.1.redis ≡ (enqueue_job codec conn job s).1)
          × ((a : ExecutionResponse)
              → done.0 ≡ ok a
              → (a.status ≡ queued)
                × (a.request_id ≡ job.request_id)
                × ((enqueue_job codec conn job s).0 ≡ ok tt)))

  err_ok : {A B : Type 0} (e : ApiError) (a : A) → ◌≡◌ {A = Result ApiError A} (err e) (ok a) → B
  err_ok e a h = absurd (ground arith)

  -- Redis and the API keys are as they were.
  abbrev pub Same : S → World S D N → Type 0
  Same s w = (w.redis ≡ s) × ((pool.view w.db).api_keys ≡ keys)

  -- A step that leaves both alone, before one that is handled.
  pub step :
      {A : Type 0} (s : S) (m : Action (World S D N) ApiError A)
      (k : A → Action (World S D N) ApiError ExecutionResponse) (w : World S D N)
      → Same s (m w).1
      → ((a : A) (w' : World S D N) → (m w).0 ≡ ok a → Same s w' → Handled s (k a w'))
      → Handled s ((m >>= k) w)
  step s m k w same next = go (m w).0 (m w).1 same next
    where
      go :
          (r : Result ApiError _) (w' : World S D N)
          → Same s w'
          → ((a : _) (w' : World S D N) → r ≡ ok a → Same s w' → Handled s (k a w'))
          → Handled s (elim r [ ok a ↦ k a w' | err e ↦ (err e, w') ])
      go (ok a) w' same next = next a w' refl same
      go (err e) w' same next = inl (same.0, λ a h. err_ok e a h)

  queue_up_redis :
      (req : ExecutionRequest) (smart_wallet : Text) (gas : ℕ) (job : ExecutionJob)
      (w : World S D N)
      → (queue_up codec conn pool services req smart_wallet gas job w).1.redis
        ≡ (enqueue_job codec conn job w.redis).1
  unfolding queue_up
  queue_up_redis req smart_wallet gas job w =
      elim (Result-cases (enqueue_job codec conn job w.redis).0) [
        | inr (e, q) ↦ ground arith
        | inl (u, q) ↦
            elim (Result-cases
              (update_execution_status pool job.request_id queued none none none w.db).0) [
                | inr (e, q2) ↦ ground arith
                | inl (v, q2) ↦ ground arith
              ]
      ]

  queue_up_answer :
      (req : ExecutionRequest) (smart_wallet : Text) (gas : ℕ) (job : ExecutionJob)
      (w : World S D N) (a : ExecutionResponse)
      → (queue_up codec conn pool services req smart_wallet gas job w).0 ≡ ok a
      → (a.status ≡ queued)
        × (a.request_id ≡ job.request_id)
        × ((enqueue_job codec conn job w.redis).0 ≡ ok tt)
  unfolding queue_up
  queue_up_answer req smart_wallet gas job w a h =
      elim (Result-cases (enqueue_job codec conn job w.redis).0) [
        | inr (e, q) ↦ absurd (ground arith)
        | inl (u, q) ↦
            elim (Result-cases
              (update_execution_status pool job.request_id queued none none none w.db).0) [
                | inr (e, q2) ↦ absurd (ground arith)
                | inl (v, q2) ↦ (ground arith, ground arith, q)
              ]
      ]

  pub queue_up-Handled :
      (s : S) (req : ExecutionRequest) (smart_wallet : Text) (gas : ℕ) (job : ExecutionJob)
      (w : World S D N)
      → w.redis ≡ s
      → job.attempt_count ≡ 0
      → HasSecret keys api_key_id job.callback_url job.api_key_hash
      → Handled s (queue_up codec conn pool services req smart_wallet gas job w)
  queue_up-Handled s req smart_wallet gas job w same fresh secret =
      subst (λ s. Handled s (queue_up codec conn pool services req smart_wallet gas job w)) same
        (inr (
          job,
          fresh,
          secret,
          queue_up_redis req smart_wallet gas job w,
          queue_up_answer req smart_wallet gas job w,
        ))

  -- The secret for a callback is the stored hash of the key.
  pub secret_for-HasSecret :
      (callback_url secret : Option Text) (w : World S D N)
      → (pool.view w.db).api_keys ≡ keys
      → (secret_for codec conn pool services api_key_id callback_url w).0 ≡ ok secret
      → HasSecret keys api_key_id callback_url secret
  unfolding secret_for
  secret_for-HasSecret none secret w known h = ground arith
  secret_for-HasSecret (some url) secret w known h =
      elim (Result-cases (get_api_key_hash_by_id pool api_key_id w.db).0) [
        | inr (e, q) ↦ absurd (ground arith)
        | inl (found, q) ↦ elim (Option-cases found) [
          | inl e ↦ absurd (ground arith)
          | inr (hash, e) ↦
              let (row, stored, same) = hash_stored pool api_key_id w.db hash (ground arith) in
              (row, rw (← known) stored, ground arith)
        ]
      ]

  pub secret_for-Same :
      (s : S) (callback_url : Option Text) (w : World S D N)
      → Same s w
      → Same s (secret_for codec conn pool services api_key_id callback_url w).1
  unfolding secret_for
  secret_for-Same s none w same = same
  secret_for-Same s (some url) w (same, known) =
      elim (Result-cases (get_api_key_hash_by_id pool api_key_id w.db).0) [
        | inr (e, q) ↦ (ground arith, ground (arith, lookup_keys pool api_key_id w.db))
        | inl (found, q) ↦ elim (Option-cases found) [
          | inl e ↦ (ground arith, ground (arith, lookup_keys pool api_key_id w.db))
          | inr (hash, e) ↦ (ground arith, ground (arith, lookup_keys pool api_key_id w.db))
        ]
      ]
