-- ===== src/Db.antt =====
-- src/db/mod.rs: the repository functions over PostgreSQL, for execution requests, transactions and
-- API keys. The identifiers that the code draws with `Uuid::new_v4` are arguments.
pub mod Tables
pub mod Status
pub mod Ownership
pub mod Keys
use agent_execution_platform.Prelude.{ℕ, Bool, true, Option, none, some, List, ◌++◌}
use agent_execution_platform.Prelude.Text.{Text, text}
use agent_execution_platform.Prelude.Results.{Result, ok, err, or_err}
use agent_execution_platform.Prelude.Actions.{Action, pure, raise, lift, ◌>>=◌, ◌>>◌}
use agent_execution_platform.Service.{Service}
use agent_execution_platform.Types.{ExecutionRequest, ExecutionStatus, status_to_string}
use agent_execution_platform.Db.Tables.{
  ℤ, ExecutionRequestRow, TransactionRow, ApiKeyRow, Statement, insert_request, select_request,
  select_request_of, update_request, insert_transaction_row, select_active_key, insert_key,
  select_key_hash, Answer, done, violation, request_row, key_row, hash, db_apply,
}

-- A lost connection, a broken constraint, or an answer of another type than was asked for.
pub data DbError : Type 0 where
  connection constraint decode : DbError

abbrev pub Database : Type 0 → Type 0
Database D = Service db_apply D

module _ {D : Type 0} (pool : Database D) where
  execute : Statement → Action D DbError Answer
  execute c s = let (o, s') = pool.call c s in (or_err o connection, s')

  abbrev as_done : Answer → Result DbError (Unit {0})
  as_done done = ok tt
  as_done violation = err constraint
  as_done other = ok tt

  abbrev as_request : Answer → Result DbError (Option ExecutionRequestRow)
  as_request (request_row r) = ok r
  as_request violation = err constraint
  as_request other = err decode

  abbrev as_key : Answer → Result DbError (Option ApiKeyRow)
  as_key (key_row r) = ok r
  as_key violation = err constraint
  as_key other = err decode

  abbrev as_hash : Answer → Result DbError (Option Text)
  as_hash (hash h) = ok h
  as_hash violation = err constraint
  as_hash other = err decode

  unfoldable pub update_execution_status :
      ℕ → ExecutionStatus → Option Text → Option Text → Option ℤ → Action D DbError (Unit {0})
  unfolding execute
  update_execution_status id status tx_hash error_message gas_estimate = do
    a ← execute (update_request id (status_to_string status) tx_hash error_message gas_estimate)
    lift (as_done a)

  -- `fetch_one`: no row is an error.
  unfoldable pub insert_execution_request :
      ℕ
      → ℕ
      → ExecutionRequest
      → ExecutionStatus
      → Option Text
      → Option Text
      → Action D DbError ExecutionRequestRow
  unfolding execute
  insert_execution_request id api_key_id req status smart_wallet_address callback_url = do
    a ← execute (
        insert_request (record {
          id = id;
          api_key_id = some api_key_id;
          agent_wallet = req.agent_id;
          chain = req.chain;
          target_contract = req.target_contract;
          calldata = req.calldata;
          value = req.value;
          strategy_id = req.strategy_id;
          gas_estimate = none;
          status = status_to_string status;
          tx_hash = none;
          error_message = none;
          agent_id = some req.agent_id;
          smart_wallet_address = smart_wallet_address;
          callback_url = callback_url;
        }))
    r ← lift (as_request a)
    lift (or_err r decode)

  unfoldable pub get_execution_request : ℕ → Action D DbError (Option ExecutionRequestRow)
  unfolding execute
  get_execution_request id = do a ← execute (select_request id); lift (as_request a)

  unfoldable pub get_execution_request_for_api_key :
      ℕ → ℕ → Action D DbError (Option ExecutionRequestRow)
  unfolding execute
  get_execution_request_for_api_key id api_key_id = do
    a ← execute (select_request_of id api_key_id)
    lift (as_request a)

  -- `fetch_one` of the inserted row; its content is not used by the caller.
  unfoldable pub insert_transaction :
      ℕ → ℕ → Text → Text → Text → Text → Text → Action D DbError (Unit {0})
  unfolding execute
  insert_transaction id request_id chain tx_hash from_addr to_addr status = do
    a ← execute (
        insert_transaction_row (record {
          id = id;
          request_id = request_id;
          chain = chain;
          tx_hash = tx_hash;
          from_address = from_addr;
          to_address = to_addr;
          status = status;
        }))
    lift (as_done a)

  unfoldable pub get_api_key_hash_by_id : ℕ → Action D DbError (Option Text)
  unfolding execute
  get_api_key_hash_by_id api_key_id = do a ← execute (select_key_hash api_key_id); lift (as_hash a)

  -- SHA-256 in hex (`sha256_hex`, crate sha2) and the URL-safe base64 of a secret are parameters.
  module _ (sha256_hex : Text → Text) where
    unfoldable pub get_api_key_by_raw : Text → Action D DbError (Option ApiKeyRow)
    unfolding execute
    get_api_key_by_raw raw_key = do
      a ← execute (select_active_key (sha256_hex raw_key))
      lift (as_key a)

    unfoldable pub create_api_key :
        (Text → Text) → ℕ → Text → Option Text → Action D DbError (ApiKeyRow × Text)
    unfolding execute
    create_api_key base64 id secret label = do
      let raw_key = text "ak_" ++ base64 secret
      a ← execute (
          insert_key
            (record { id = id; key_hash = sha256_hex raw_key; label = label; is_active = true }))
      r ← lift (as_key a)
      row ← lift (or_err r decode)
      pure (row, raw_key)
