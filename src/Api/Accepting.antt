-- ===== src/Api/Accepting.antt =====
-- src/api/services/mod.rs: what `handle_execute` may do to the queue.
use agent_execution_platform.Prelude.{
  ℕ, ◌≡◌, refl, ◌∙◌, inl, inr, Bool, true, false, Option, none, some, List, if◌then◌else◌, arith,
}
use agent_execution_platform.Prelude.Text.{Text}
use agent_execution_platform.Prelude.Results.{Result-cases}
use agent_execution_platform.Prelude.Actions.{lift}
use agent_execution_platform.Types.{ExecutionRequest, SimulationResult, pending, failed, Chain}
use agent_execution_platform.Queue.{Redis}
use agent_execution_platform.Queue.Payloads.{Codec}
use agent_execution_platform.Db.{Database, insert_execution_request, update_execution_status}
use agent_execution_platform.Db.Tables.{ApiKeyRow}
use agent_execution_platform.Db.Keys.{update_keys, insert_keys}
use agent_execution_platform.Worker.{World}
use agent_execution_platform.Wallets.{AgentWallet}
use agent_execution_platform.Api.{
  Services, as_i64, in_db, in_net, insert_row, secret_for, job_of, with_secret, find_secret,
  simulated_well, simulated_badly, simulated, persisted, resolved, owned, admitted, validated,
  handle_execute,
}
use agent_execution_platform.Api.Steps.{
  HasSecret, Handled, Same, step, queue_up-Handled, secret_for-HasSecret, secret_for-Same,
}

module _ {P S D N : Type 0} (codec : Codec P) (conn : Redis codec S) (pool : Database D)
    (services : Services N) (keys : List ApiKeyRow) (api_key_id : ℕ) where
  with_secret-Handled :
      (s : S) (req : ExecutionRequest) (chain : Chain) (wallet : AgentWallet) (smart_wallet : Text)
      (callback_url : Option Text) (request_id gas : ℕ) (secret : Option Text) (w : World S D N)
      → w.redis ≡ s
      → HasSecret keys api_key_id callback_url secret
      → Handled codec conn pool services keys api_key_id s (
          with_secret codec conn pool services req chain wallet smart_wallet callback_url request_id
            gas secret w)
  unfolding with_secret
  with_secret-Handled s req chain wallet smart_wallet callback_url request_id gas secret w same
        known =
      queue_up-Handled codec conn pool services keys api_key_id s req smart_wallet gas
        (job_of codec conn pool services req chain wallet smart_wallet callback_url request_id gas
          secret (services.now w.net))
        w same refl known

  simulated_well-Handled :
      (s : S) (req : ExecutionRequest) (chain : Chain) (wallet : AgentWallet) (smart_wallet : Text)
      (callback_url : Option Text) (request_id gas : ℕ) (w : World S D N)
      → Same codec conn pool services keys api_key_id s w
      → Handled codec conn pool services keys api_key_id s (
          simulated_well codec conn pool services api_key_id req chain wallet smart_wallet
            callback_url request_id gas w)
  unfolding simulated_well find_secret
  simulated_well-Handled s req chain wallet smart_wallet callback_url request_id gas w same =
      step codec conn pool services keys api_key_id s
        (in_db codec conn pool services
          (update_execution_status pool request_id pending none none (some (as_i64 gas))))
        (λ u.
          find_secret codec conn pool services api_key_id req chain wallet smart_wallet callback_url
            request_id gas)
        w (same.0, update_keys pool request_id pending none none (some (as_i64 gas)) w.db ∙ same.1)
        (λ u w1 e1 same1.
          step codec conn pool services keys api_key_id s
            (secret_for codec conn pool services api_key_id callback_url)
            (with_secret codec conn pool services req chain wallet smart_wallet callback_url
              request_id gas)
            w1 (secret_for-Same codec conn pool services keys api_key_id s callback_url w1 same1)
            (λ secret w2 e2 same2.
              with_secret-Handled s req chain wallet smart_wallet callback_url request_id gas secret
                w2 same2.0
                (secret_for-HasSecret codec conn pool services keys api_key_id callback_url secret
                  w1 same1.1 e2)))

  simulated_badly-Handled :
      (s : S) (smart_wallet : Text) (request_id : ℕ) (sim : SimulationResult) (w : World S D N)
      → w.redis ≡ s
      → Handled codec conn pool services keys api_key_id s
          (simulated_badly codec conn pool services smart_wallet request_id sim w)
  unfolding simulated_badly
  simulated_badly-Handled s smart_wallet request_id sim w same =
      elim (Result-cases
        (update_execution_status pool request_id failed none sim.error none w.db).0) [
          | inr (e, q) ↦ inl (ground arith, λ a h. absurd (ground arith))
          | inl (u, q) ↦ inl (ground arith, λ a h. ground arith)
        ]

  simulated-Handled :
      (s : S) (req : ExecutionRequest) (chain : Chain) (callback_url : Option Text)
      (wallet : AgentWallet) (smart_wallet : Text) (request_id : ℕ) (sim : SimulationResult)
      (w : World S D N)
      → Same codec conn pool services keys api_key_id s w
      → Handled codec conn pool services keys api_key_id s (
          simulated codec conn pool services api_key_id req chain callback_url wallet smart_wallet
            request_id sim w)
  unfolding simulated
  simulated-Handled s req chain callback_url wallet smart_wallet request_id sim w same =
      branch sim.success
    where
      branch :
          (well : Bool)
          → Handled codec conn pool services keys api_key_id s (
              (if well
                  then simulated_well codec conn pool services api_key_id req chain wallet
                      smart_wallet callback_url request_id sim.gas_estimate
                  else simulated_badly codec conn pool services smart_wallet request_id sim)
                w)
      branch true =
          simulated_well-Handled s req chain wallet smart_wallet callback_url request_id
            sim.gas_estimate w same
      branch false = simulated_badly-Handled s smart_wallet request_id sim w same.0

  insert_row-Same :
      (s : S) (req : ExecutionRequest) (smart_wallet : Text) (callback_url : Option Text)
      (w : World S D N)
      → Same codec conn pool services keys api_key_id s w
      → Same codec conn pool services keys api_key_id s
          (insert_row codec conn pool services api_key_id req smart_wallet callback_url w).1
  unfolding insert_row
  insert_row-Same s req smart_wallet callback_url w (same, known) =
      let kept =
        insert_keys pool w.next_uuid api_key_id req pending (some smart_wallet) callback_url w.db in
      elim (Result-cases
        (insert_execution_request pool w.next_uuid api_key_id req pending (some smart_wallet)
          callback_url w.db).0) [
            | inr (e, q) ↦ (ground arith, ground (arith, kept))
            | inl (row, q) ↦ (ground arith, ground (arith, kept))
          ]

  handled :
      (req : ExecutionRequest) (w : World S D N)
      → (pool.view w.db).api_keys ≡ keys
      → Handled codec conn pool services keys api_key_id w.redis
          (handle_execute codec conn pool services api_key_id req w)
  unfolding handle_execute validated admitted owned resolved persisted
  handled req w known =
      step codec conn pool services keys api_key_id s (lift _)
        (validated codec conn pool services api_key_id req) w (refl, known)
        (λ chain w1 e1 same1.
          step codec conn pool services keys api_key_id s (lift _)
            (admitted codec conn pool services api_key_id req chain) w1 same1
            (λ cb w2 e2 same2.
              step codec conn pool services keys api_key_id s
                (in_net codec conn pool services (services.get_or_create api_key_id req.agent_id))
                (owned codec conn pool services api_key_id req chain cb) w2 same2
                (λ wallet w3 e3 same3.
                  step codec conn pool services keys api_key_id s
                    (in_net codec conn pool services (services.resolve_smart_wallet chain wallet))
                    (resolved codec conn pool services api_key_id req chain cb wallet) w3 same3
                    (λ address w4 e4 same4.
                      step codec conn pool services keys api_key_id s
                        (insert_row codec conn pool services api_key_id req
                          (services.print_address address) cb)
                        (persisted codec conn pool services api_key_id req chain cb wallet address)
                        w4 (insert_row-Same s req (services.print_address address) cb w4 same4)
                        (λ id w5 e5 same5.
                          step codec conn pool services keys api_key_id s
                            (in_net codec conn pool services
                              (services.simulate_request req chain wallet address))
                            (simulated codec conn pool services api_key_id req chain cb wallet
                              (services.print_address address) id)
                            w5 same5
                            (λ sim w6 e6 same6.
                              simulated-Handled s req chain cb wallet
                                (services.print_address address) id sim w6 same6))))))
    where
      s : S
      s = w.redis

module _ {P S D N : Type 0} (codec : Codec P) (conn : Redis codec S) (pool : Database D)
    (services : Services N) where
  -- Whatever Redis, PostgreSQL and the other services answer, an execution request hands at most
  -- one job to the queue, not attempted yet and, where it has a webhook, with the hash of the
  -- caller's API key that is stored when the request comes, for its signature; an answer that says
  -- queued is about a job that the queue has taken, and any other says failed and leaves the queue
  -- alone.
  pub handle_execute-Handled :
      (api_key_id : ℕ) (req : ExecutionRequest) (w : World S D N)
      → Handled codec conn pool services
          (pool.view w.db).api_keys
          api_key_id
          w.redis
          (handle_execute codec conn pool services api_key_id req w)
  handle_execute-Handled api_key_id req w =
      handled codec conn pool services (pool.view w.db).api_keys api_key_id req w refl
