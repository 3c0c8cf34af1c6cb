-- ===== src/Db/Status.antt =====
-- src/db/mod.rs: what `update_execution_status` and `insert_transaction` do to the requests.
use agent_execution_platform.Prelude.{
  ℕ, ◌≡◌, ◌≢◌, refl, ◌∙◌, Option, some, arith, Option-cases, inl, inr,
}
use agent_execution_platform.Prelude.Text.{Text}
use agent_execution_platform.Prelude.Results.{ok}
use agent_execution_platform.Service.{IsHealthy, call_healthy, call_inv}
use agent_execution_platform.Types.{ExecutionStatus, status_to_string}
use agent_execution_platform.Db.{Database, execute, update_execution_status, insert_transaction}
use agent_execution_platform.Db.Tables.{
  ℤ, Tables, ExecutionRequestRow, TransactionRow, update_request, insert_transaction_row, db_apply,
  option_map,
}

abbrev pub status_of : ℕ → Tables → Option Text
status_of id v = option_map (λ row. row.status) (v.requests id)

-- Request `id` has come to this status, if it is in the table; no other request has changed.
pub record Marked (id : ℕ) (status : ExecutionStatus) (v v' : Tables) : Type 0 where
  pub marked :
      (row : ExecutionRequestRow)
      → v.requests id ≡ some row
      → status_of id v' ≡ some (status_to_string status)
  pub others : (k : ℕ) → k ≢ id → v'.requests k ≡ v.requests k

pub Marked-trans :
    (id : ℕ) (s t : ExecutionStatus) (v v' v'' : Tables)
    → Marked id s v v'
    → Marked id t v' v''
    → Marked id t v v''
Marked-trans id s t v v' v'' a b = record {
  marked = λ row e. elim (Option-cases (v'.requests id)) [
    | inl gone ↦ let m = a.marked row e in ground arith
    | inr (row', e') ↦ b.marked row' e'
  ];
  others = λ k ne. b.others k ne ∙ a.others k ne;
}

-- Later changes of other tables keep the mark.
pub Marked-same :
    (id : ℕ) (s : ExecutionStatus) (v v' v'' : Tables)
    → Marked id s v v'
    → v''.requests ≡ v'.requests
    → Marked id s v v''
Marked-same id s v v' v'' a e = record {
  marked = λ row h. let m = a.marked row h in rw e m;
  others = λ k ne. rw e (a.others k ne);
}

insert_row-requests :
    (row : TransactionRow) (t : Tables)
    → (db_apply (insert_transaction_row row) t).1.requests ≡ t.requests
unfolding db_apply
insert_row-requests row t = elim (Option-cases (t.requests row.request_id)) [
  | inl e ↦ rw e
  | inr (r, e) ↦ rw e
]

module _ {D : Type 0} (pool : Database D) where
  -- While PostgreSQL answers, the update gives the request its new status, COALESCE keeps what is
  -- not given, and no other request changes.
  pub update_execution_status_healthy :
      (id : ℕ) (status : ExecutionStatus) (tx_hash error_message : Option Text)
      (gas_estimate : Option ℤ) (d : D)
      → IsHealthy pool
      → let (r, d') = update_execution_status pool id status tx_hash error_message gas_estimate d in
        (r ≡ ok tt)
        × (pool.view d'
            ≡ (db_apply
                (update_request id (status_to_string status) tx_hash error_message gas_estimate)
                (pool.view d)).1)
  unfolding update_execution_status db_apply
  update_execution_status_healthy id status tx_hash error_message gas_estimate d healthy = ground (
    arith,
    call_healthy pool healthy
        (update_request id (status_to_string status) tx_hash error_message gas_estimate) d,
  )

  pub update_execution_status-Marked :
      (id : ℕ) (status : ExecutionStatus) (tx_hash error_message : Option Text)
      (gas_estimate : Option ℤ) (d : D)
      → IsHealthy pool
      → Marked id status (pool.view d) (
          pool.view (update_execution_status pool id status tx_hash error_message gas_estimate d).1)
  unfolding db_apply
  update_execution_status-Marked id status tx_hash error_message gas_estimate d healthy =
      let (_, effect) =
        update_execution_status_healthy id status tx_hash error_message gas_estimate d healthy in
      record {
        marked = λ row e. rw effect (ground arith);
        others = λ k ne. rw effect (ground arith);
      }

  pub insert_transaction-requests :
      (id request_id : ℕ) (chain tx_hash from_addr to_addr status : Text) (d : D)
      → (pool.view
          (insert_transaction pool id request_id chain tx_hash from_addr to_addr status
            d).1).requests
        ≡ (pool.view d).requests
  unfolding insert_transaction execute
  insert_transaction-requests id request_id chain tx_hash from_addr to_addr status d =
      let row : TransactionRow = record {
        id = id;
        request_id = request_id;
        chain = chain;
        tx_hash = tx_hash;
        from_address = from_addr;
        to_address = to_addr;
        status = status;
      } in
      ground (
        arith,
        call_inv pool (λ v. v.requests ≡ (pool.view d).requests) (insert_transaction_row row) d refl
            (insert_row-requests row (pool.view d)),
      )
