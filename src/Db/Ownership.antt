-- ===== src/Db/Ownership.antt =====
-- src/db/mod.rs: a request is shown to the API key that made it, and to no other.
use agent_execution_platform.Prelude.{
  ℕ, ◌≡◌, sym, ◌∙◌, ap, true, Option, none, some, Bool-cases, Option-cases, inl, inr, arith,
}
use agent_execution_platform.Prelude.Results.{ok}
use agent_execution_platform.Service.{call_answered}
use agent_execution_platform.Db.{Database, get_execution_request_for_api_key}
use agent_execution_platform.Db.Tables.{
  ExecutionRequestRow, select_request_of, owned_by, has_key_id, db_apply,
}

owner : (key : ℕ) (o : Option ℕ) → has_key_id key o ≡ true → o ≡ some key
owner key none h = absurd (ground arith)
owner key (some j) h = ground arith

owned_by-some :
    (key : ℕ) (o : Option ExecutionRequestRow) (row : ExecutionRequestRow)
    → owned_by key o ≡ some row
    → (row.api_key_id ≡ some key) × (o ≡ some row)
owned_by-some key none row h = absurd (ground arith)
owned_by-some key (some found) row h = elim (Bool-cases (has_key_id key found.api_key_id)) [
  | inr other ↦ absurd (ground arith)
  | inl mine ↦
      let same : found ≡ row = ground arith in
      (ap (λ r. r.api_key_id) (sym same) ∙ owner key found.api_key_id mine, ap some same)
]

module _ {D : Type 0} (pool : Database D) where
  -- Whatever PostgreSQL answers, a row that the lookup for an API key returns is the stored row of
  -- that request, and the key is its owner.
  pub get_execution_request_for_api_key_lem :
      (id key : ℕ) (s : D) (row : ExecutionRequestRow)
      → (get_execution_request_for_api_key pool id key s).0 ≡ ok (some row)
      → (row.api_key_id ≡ some key) × ((pool.view s).requests id ≡ some row)
  unfolding get_execution_request_for_api_key db_apply
  get_execution_request_for_api_key_lem id key s row h =
      elim (Option-cases (pool.call (select_request_of id key) s).0) [
        | inl lost ↦ absurd (ground arith)
        | inr (answer, q) ↦
            let (said, moved) = call_answered pool (select_request_of id key) s q in
            owned_by-some key ((pool.view s).requests id) row (ground (arith, said))
      ]
