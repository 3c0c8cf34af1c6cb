-- ===== src/Api.antt =====
-- src/api/services/mod.rs: `handle_execute`, from a request to a job in the queue. What it asks of
-- the wallet registry, the node and the bundler are arguments, over a state of their own.
pub mod Steps
pub mod Accepting
use agent_execution_platform.Prelude.{
  ℕ, ◌+◌, ◌-◌, ◌*◌, ◌/◌, ◌^◌, Bool, true, false, not, Option, none, some, List, ◌++◌, ltb,
  if◌then◌else◌,
}
use agent_execution_platform.Prelude.Text.{Text, text}
use agent_execution_platform.Prelude.Results.{Result, ok, err, or_err, fail_if, map_err}
use agent_execution_platform.Prelude.Actions.{Action, pure, lift, ◌>>=◌, ◌>>◌}
use agent_execution_platform.Wallets.{AgentWallet}
use agent_execution_platform.Types.{
  Chain, ExecutionRequest, ExecutionResponse, ExecutionJob, SimulationResult, pending, queued,
  failed,
}
use agent_execution_platform.Crates.{Hex, u64_max}
use agent_execution_platform.Engine.{ValidationError, validate}
use agent_execution_platform.Callback.{UrlParser, CallbackError, validate_callback_url}
use agent_execution_platform.Queue.{QueueError, Redis, enqueue_job}
use agent_execution_platform.Queue.Payloads.{Codec}
use agent_execution_platform.Db.{
  DbError, Database, insert_execution_request, update_execution_status, get_api_key_hash_by_id,
}
use agent_execution_platform.Db.Tables.{ExecutionRequestRow, ℤ, pos, negsuc}
use agent_execution_platform.Worker.{World}

pub data ApiError : Type 0 where
  validation : ValidationError → ApiError
  callback : CallbackError → ApiError
  no_bundler no_sponsorship secret_unavailable : ApiError
  database : DbError → ApiError
  queue : QueueError → ApiError
  outside : Text → ApiError

-- What the handler is given besides Redis and PostgreSQL.
pub record Services (N : Type 0) : Type 0 where
  pub hex : Hex
  pub urls : UrlParser
  pub has_provider : Chain → Bool
  pub has_bundler : Chain → Bool
  pub has_paymaster_signer : Chain → Bool
  pub get_or_create : ℕ → Text → Action N Text AgentWallet
  pub resolve_smart_wallet : Chain → AgentWallet → Action N Text (List ℕ)
  pub simulate_request :
      ExecutionRequest → Chain → AgentWallet → List ℕ → Action N Text SimulationResult
  pub print_address : List ℕ → Text
  pub now : N → ℕ

-- `saturating_mul(120) / 100`.
abbrev pub with_buffer : ℕ → ℕ
with_buffer gas = (if ltb u64_max (gas * 120) then u64_max else gas * 120) / 100

-- `as i64` of a u64: its bits as a signed number.
abbrev pub as_i64 : ℕ → ℤ
as_i64 n = if ltb n (2 ^ 63) then pos n else negsuc (u64_max - n)

abbrev pub unwrap_text : Option Text → Text
unwrap_text none = text ""
unwrap_text (some t) = t

module _ {P S D N : Type 0} (codec : Codec P) (conn : Redis codec S) (pool : Database D)
    (services : Services N) where
  abbrev pub in_db : {A : Type 0} → Action D DbError A → Action (World S D N) ApiError A
  in_db m w = let (r, d) = m w.db in (map_err database r, record w { db = d })

  abbrev pub in_net : {A : Type 0} → Action N Text A → Action (World S D N) ApiError A
  in_net m w = let (r, n) = m w.net in (map_err outside r, record w { net = n })

  abbrev pub in_queue : {A : Type 0} → Action S QueueError A → Action (World S D N) ApiError A
  in_queue m w = let (r, s) = m w.redis in (map_err queue r, record w { redis = s })

  -- The row with a fresh identifier, which is the request's.
  insert_row : ℕ → ExecutionRequest → Text → Option Text → Action (World S D N) ApiError ℕ
  insert_row api_key_id req smart_wallet callback_url w =
      (do
        row ← in_db (
            insert_execution_request pool w.next_uuid api_key_id req pending (some smart_wallet)
              callback_url)
        pure row.id)
        (record w { next_uuid = w.next_uuid + 1 })

  -- The secret that signs the webhook, which a request without a callback does not need.
  pub secret_for : ℕ → Option Text → Action (World S D N) ApiError (Option Text)
  secret_for api_key_id none = pure none
  secret_for api_key_id (some url) = do
    found ← in_db (get_api_key_hash_by_id pool api_key_id)
    secret ← lift (or_err found secret_unavailable)
    pure (some secret)

  abbrev pub job_of :
      ExecutionRequest
      → Chain
      → AgentWallet
      → Text
      → Option Text
      → ℕ
      → ℕ
      → Option Text
      → ℕ
      → ExecutionJob
  job_of req chain wallet smart_wallet callback_url request_id gas_estimate api_key_hash
        created_at =
      record {
        request_id = request_id;
        agent_id = req.agent_id;
        smart_wallet_address = smart_wallet;
        eoa_address = services.print_address wallet.eoa_address;
        chain = chain;
        target_contract = req.target_contract;
        calldata = req.calldata;
        value = req.value;
        gas_limit = with_buffer gas_estimate;
        created_at = created_at;
        attempt_count = 0;
        batch_calls = req.batch_calls;
        callback_url = callback_url;
        api_key_hash = api_key_hash;
      }

  abbrev queued_message : Option Text → Text
  queued_message none = text "execution queued"
  queued_message (some url) = text "execution queued — result will be POSTed to your callback URL"

  -- The job into the queue, and then the status.
  pub queue_up :
      ExecutionRequest → Text → ℕ → ExecutionJob → Action (World S D N) ApiError ExecutionResponse
  queue_up req smart_wallet gas_estimate job = do
    in_queue (enqueue_job codec conn job)
    in_db (update_execution_status pool job.request_id queued none none none)
    pure (record {
      request_id = job.request_id;
      status = queued;
      smart_wallet_address = some smart_wallet;
      estimated_gas = some gas_estimate;
      tx_hash = none;
      message = queued_message req.callback_url;
    })

  -- The last steps of a request whose simulation went well, by the secret for its webhook.
  with_secret :
      ExecutionRequest
      → Chain
      → AgentWallet
      → Text
      → Option Text
      → ℕ
      → ℕ
      → Option Text
      → Action (World S D N) ApiError ExecutionResponse
  unfolding queue_up
  with_secret req chain wallet smart_wallet callback_url request_id gas_estimate api_key_hash w =
      queue_up req smart_wallet gas_estimate
        (job_of req chain wallet smart_wallet callback_url request_id gas_estimate api_key_hash
          (services.now w.net))
        w

  find_secret :
      ℕ
      → ExecutionRequest
      → Chain
      → AgentWallet
      → Text
      → Option Text
      → ℕ
      → ℕ
      → Action (World S D N) ApiError ExecutionResponse
  unfolding secret_for with_secret
  find_secret api_key_id req chain wallet smart_wallet callback_url request_id gas_estimate =
      secret_for api_key_id callback_url
      >>= with_secret req chain wallet smart_wallet callback_url request_id gas_estimate

  simulated_well :
      ℕ
      → ExecutionRequest
      → Chain
      → AgentWallet
      → Text
      → Option Text
      → ℕ
      → ℕ
      → Action (World S D N) ApiError ExecutionResponse
  unfolding find_secret
  simulated_well api_key_id req chain wallet smart_wallet callback_url request_id gas_estimate = do
    in_db (update_execution_status pool request_id pending none none (some (as_i64 gas_estimate)))
    find_secret api_key_id req chain wallet smart_wallet callback_url request_id gas_estimate

  simulated_badly : Text → ℕ → SimulationResult → Action (World S D N) ApiError ExecutionResponse
  simulated_badly smart_wallet request_id sim = do
    in_db (update_execution_status pool request_id failed none sim.error none)
    pure (record {
      request_id = request_id;
      status = failed;
      smart_wallet_address = some smart_wallet;
      estimated_gas = none;
      tx_hash = none;
      message = text "simulation failed: " ++ unwrap_text sim.error;
    })

  -- The steps of the handler from the end to the beginning, each with what is known before it.
  simulated :
      ℕ
      → ExecutionRequest
      → Chain
      → Option Text
      → AgentWallet
      → Text
      → ℕ
      → SimulationResult
      → Action (World S D N) ApiError ExecutionResponse
  unfolding simulated_well simulated_badly
  simulated api_key_id req chain callback_url wallet smart_wallet request_id sim =
      if sim.success
      then simulated_well api_key_id req chain wallet smart_wallet callback_url request_id
          sim.gas_estimate
      else simulated_badly smart_wallet request_id sim

  persisted :
      ℕ
      → ExecutionRequest
      → Chain
      → Option Text
      → AgentWallet
      → List ℕ
      → ℕ
      → Action (World S D N) ApiError ExecutionResponse
  unfolding simulated
  persisted api_key_id req chain callback_url wallet address request_id =
      in_net (services.simulate_request req chain wallet address)
      >>= simulated api_key_id req chain callback_url wallet (services.print_address address)
          request_id

  resolved :
      ℕ
      → ExecutionRequest
      → Chain
      → Option Text
      → AgentWallet
      → List ℕ
      → Action (World S D N) ApiError ExecutionResponse
  unfolding insert_row persisted
  resolved api_key_id req chain callback_url wallet address =
      insert_row api_key_id req (services.print_address address) callback_url
      >>= persisted api_key_id req chain callback_url wallet address

  owned :
      ℕ
      → ExecutionRequest
      → Chain
      → Option Text
      → AgentWallet
      → Action (World S D N) ApiError ExecutionResponse
  unfolding resolved
  owned api_key_id req chain callback_url wallet =
      in_net (services.resolve_smart_wallet chain wallet)
      >>= resolved api_key_id req chain callback_url wallet

  admitted :
      ℕ → ExecutionRequest → Chain → Option Text → Action (World S D N) ApiError ExecutionResponse
  unfolding owned
  admitted api_key_id req chain callback_url =
      in_net (services.get_or_create api_key_id req.agent_id)
      >>= owned api_key_id req chain callback_url

  validated : ℕ → ExecutionRequest → Chain → Action (World S D N) ApiError ExecutionResponse
  unfolding admitted
  validated api_key_id req chain = lift (checked chain req) >>= admitted api_key_id req chain
    where
      checked : Chain → ExecutionRequest → Result ApiError (Option Text)
      checked chain req =
          if not (services.has_bundler chain)
          then err no_bundler
          else if not (services.has_paymaster_signer chain)
          then err no_sponsorship
          else map_err callback (validate_callback_url services.urls req.callback_url)

  unfoldable pub handle_execute :
      ℕ → ExecutionRequest → Action (World S D N) ApiError ExecutionResponse
  unfolding validated
  handle_execute api_key_id req =
      lift (map_err validation (validate services.hex services.has_provider req))
      >>= validated api_key_id req
