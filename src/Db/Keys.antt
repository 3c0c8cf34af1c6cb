-- ===== src/Db/Keys.antt =====
-- src/db/mod.rs: the table of the API keys, under the calls that `handle_execute` makes.
use agent_execution_platform.Prelude.{
  ℕ, ◌≡◌, refl, Option, none, some, Option-cases, inl, inr, arith,
}
use agent_execution_platform.Prelude.Text.{Text}
use agent_execution_platform.Prelude.Results.{ok, or_err}
use agent_execution_platform.Prelude.Actions.{bind_inv, lift, ◌>>=◌}
use agent_execution_platform.Service.{call_answered, call_inv}
use agent_execution_platform.Types.{ExecutionStatus, status_to_string, ExecutionRequest}
use agent_execution_platform.Db.{
  Database, execute, as_hash, as_done, as_request, decode, get_api_key_hash_by_id,
  update_execution_status, insert_execution_request,
}
use agent_execution_platform.Db.Tables.{
  ApiKeyRow, ExecutionRequestRow, Tables, Statement, ℤ, find_id, select_key_hash, insert_request,
  update_request, insert_new, db_apply,
}

inserted_keys :
    (row : ExecutionRequestRow) (o : Option ExecutionRequestRow) (t : Tables)
    → (insert_new row o t).1.api_keys ≡ t.api_keys
inserted_keys row none t = refl
inserted_keys row (some old) t = refl

module _ {D : Type 0} (pool : Database D) where
  -- A lookup answers the hash that is stored.
  pub hash_stored :
      (api_key_id : ℕ) (d : D) (hash : Text)
      → (get_api_key_hash_by_id pool api_key_id d).0 ≡ ok (some hash)
      → (row : ApiKeyRow) × (find_id api_key_id (pool.view d).api_keys ≡ some row)
        × (hash ≡ row.key_hash)
  unfolding get_api_key_hash_by_id db_apply
  hash_stored api_key_id d hash h =
      elim (Option-cases (pool.call (select_key_hash api_key_id) d).0) [
        | inl lost ↦ absurd (ground arith)
        | inr (answer, q) ↦
            let (said, moved) = call_answered pool (select_key_hash api_key_id) d q in
            elim (Option-cases (find_id api_key_id (pool.view d).api_keys)) [
              | inl missing ↦ absurd (ground (arith, said))
              | inr (row, found) ↦ (row, found, ground (arith, said))
            ]
      ]

  abbrev Keeps : D → D → Type 0
  Keeps d d' = (pool.view d').api_keys ≡ (pool.view d).api_keys

  call_keys :
      (c : Statement) (d : D)
      → (db_apply c (pool.view d)).1.api_keys ≡ (pool.view d).api_keys
      → Keeps d (pool.call c d).1
  call_keys c d kept = call_inv pool (λ t. t.api_keys ≡ (pool.view d).api_keys) c d refl kept

  pub lookup_keys : (api_key_id : ℕ) (d : D) → Keeps d (get_api_key_hash_by_id pool api_key_id d).1
  unfolding get_api_key_hash_by_id execute db_apply
  lookup_keys api_key_id d =
      let kept = call_keys (select_key_hash api_key_id) d refl in
      bind_inv (Keeps d) (λ a. lift (as_hash pool a)) (execute pool (select_key_hash api_key_id)) d
        kept (λ a e. kept)

  pub update_keys :
      (id : ℕ) (status : ExecutionStatus) (tx_hash error_message : Option Text)
      (gas_estimate : Option ℤ) (d : D)
      → Keeps d (update_execution_status pool id status tx_hash error_message gas_estimate d).1
  unfolding update_execution_status execute db_apply
  update_keys id status tx_hash error_message gas_estimate d =
      let c = update_request id (status_to_string status) tx_hash error_message gas_estimate in
      let kept = call_keys c d refl in
      bind_inv (Keeps d) (λ a. lift (as_done pool a)) (execute pool c) d kept (λ a e. kept)

  pub insert_keys :
      (id api_key_id : ℕ) (req : ExecutionRequest) (status : ExecutionStatus)
      (smart_wallet callback_url : Option Text) (d : D)
      → Keeps d
          (insert_execution_request pool id api_key_id req status smart_wallet callback_url d).1
  unfolding insert_execution_request execute db_apply
  insert_keys id api_key_id req status smart_wallet callback_url d =
      let row : ExecutionRequestRow = record {
        id = id;
        api_key_id = some api_key_id;
        agent_wallet = req.agent_id;
        chain = req.chain;
        target_contract = req.target_contract;
        calldata = req.calldata;
        value = req.value;
        strategy_id = req.strategy_id;
        gas_estimate = none;
        status = status_to_string status;
        tx_hash = none;
        error_message = none;
        agent_id = some req.agent_id;
        smart_wallet_address = smart_wallet;
        callback_url = callback_url;
      } in
      let inserted = inserted_keys row ((pool.view d).requests id) (pool.view d) in
      let kept = call_keys (insert_request row) d inserted in
      bind_inv (Keeps d) (λ a. lift (as_request pool a) >>= λ r. lift (or_err r decode))
        (execute pool (insert_request row)) d kept
        (λ a e.
          bind_inv (Keeps d) (λ r. lift (or_err r decode)) (lift (as_request pool a))
            (pool.call (insert_request row) d).1 kept (λ r e. kept))
