-- ===== src/Db/Tables.antt =====
-- The tables of migrations/ that src/db/mod.rs reads and writes, and the documented effect of its
-- SQL statements on them. Columns of timestamps are left out.
use agent_execution_platform.Prelude.{
  ℕ, Bool, true, false, ◌&&◌, Option, none, some, List, [], ◌∷◌, ◌==◌, if◌then◌else◌,
}
use agent_execution_platform.Prelude.Text.{Text, text_eq}

-- An i64.
pub data ℤ : Type 0 where
  pos negsuc : ℕ → ℤ

-- `struct ExecutionRequestRow`.
pub record ExecutionRequestRow : Type 0 where
  pub id : ℕ
  pub api_key_id : Option ℕ
  pub agent_wallet : Text
  pub chain : Text
  pub target_contract : Text
  pub calldata : Text
  pub value : Text
  pub strategy_id : Option Text
  pub gas_estimate : Option ℤ
  pub status : Text
  pub tx_hash : Option Text
  pub error_message : Option Text
  pub agent_id : Option Text
  pub smart_wallet_address : Option Text
  pub callback_url : Option Text

-- `struct TransactionRow`.
pub record TransactionRow : Type 0 where
  pub id : ℕ
  pub request_id : ℕ
  pub chain : Text
  pub tx_hash : Text
  pub from_address : Text
  pub to_address : Text
  pub status : Text

-- `struct ApiKeyRow`.
pub record ApiKeyRow : Type 0 where
  pub id : ℕ
  pub key_hash : Text
  pub label : Option Text
  pub is_active : Bool

pub record Tables : Type 0 where
  pub requests : ℕ → Option ExecutionRequestRow
  pub transactions : List TransactionRow
  pub api_keys : List ApiKeyRow

-- One constructor for each statement, with its bound values.
pub data Statement : Type 0 where
  insert_request : ExecutionRequestRow → Statement
  select_request : ℕ → Statement
  select_request_of : ℕ → ℕ → Statement
  update_request : ℕ → Text → Option Text → Option Text → Option ℤ → Statement
  insert_transaction_row : TransactionRow → Statement
  select_active_key : Text → Statement
  insert_key : ApiKeyRow → Statement
  select_key_hash : ℕ → Statement

-- `violation` is a constraint of the schema that the statement breaks.
pub data Answer : Type 0 where
  done : Answer
  violation : Answer
  request_row : Option ExecutionRequestRow → Answer
  key_row : Option ApiKeyRow → Answer
  hash : Option Text → Answer

-- SQL's COALESCE of a bound value and a column.
abbrev pub coalesce : {A : Type 0} → Option A → Option A → Option A
coalesce (some a) o = some a
coalesce none o = o

abbrev pub set_status :
    Text → Option Text → Option Text → Option ℤ → ExecutionRequestRow → ExecutionRequestRow
set_status status tx_hash error_message gas_estimate row = record row {
  status = status;
  tx_hash = coalesce tx_hash row.tx_hash;
  error_message = coalesce error_message row.error_message;
  gas_estimate = coalesce gas_estimate row.gas_estimate;
}

abbrev pub option_map : {A B : Type 0} → (A → B) → Option A → Option B
option_map f none = none
option_map f (some a) = some (f a)

abbrev pub write : {A : Type 0} → (ℕ → Option A) → ℕ → Option A → ℕ → Option A
write f k v j = if k == j then v else f j

abbrev pub has_key_id : ℕ → Option ℕ → Bool
has_key_id k none = false
has_key_id k (some j) = j == k

abbrev pub owned_by : ℕ → Option ExecutionRequestRow → Option ExecutionRequestRow
owned_by key none = none
owned_by key (some row) = if has_key_id key row.api_key_id then some row else none

abbrev pub find_active : Text → List ApiKeyRow → Option ApiKeyRow
find_active h [] = none
find_active h (k ∷ ks) = if text_eq k.key_hash h && k.is_active then some k else find_active h ks

abbrev pub find_id : ℕ → List ApiKeyRow → Option ApiKeyRow
find_id i [] = none
find_id i (k ∷ ks) = if k.id == i then some k else find_id i ks

abbrev pub hash_taken : Text → List ApiKeyRow → Bool
hash_taken h [] = false
hash_taken h (k ∷ ks) = if text_eq k.key_hash h then true else hash_taken h ks

abbrev pub insert_new : ExecutionRequestRow → Option ExecutionRequestRow → Tables → Answer × Tables
insert_new row (some old) t = (violation, t)
insert_new row none t =
    (request_row (some row), record t { requests = write t.requests row.id (some row) })

-- `transactions.request_id` references `execution_requests(id)`.
abbrev pub insert_referring : TransactionRow → Option ExecutionRequestRow → Tables → Answer × Tables
insert_referring row none t = (violation, t)
insert_referring row (some r) t = (done, record t { transactions = row ∷ t.transactions })

unfoldable pub db_apply : Statement → Tables → Answer × Tables
db_apply (insert_request row) t = insert_new row (t.requests row.id) t
db_apply (select_request i) t = (request_row (t.requests i), t)
db_apply (select_request_of i key) t = (request_row (owned_by key (t.requests i)), t)
db_apply (update_request i status tx_hash error_message gas_estimate) t = (
  done,
  record t {
    requests =
        write t.requests i
          (option_map (set_status status tx_hash error_message gas_estimate) (t.requests i));
  },
)
db_apply (insert_transaction_row row) t = insert_referring row (t.requests row.request_id) t
db_apply (select_active_key h) t = (key_row (find_active h t.api_keys), t)
-- `api_keys.key_hash` is unique.
db_apply (insert_key row) t =
    if hash_taken row.key_hash t.api_keys
    then (violation, t)
    else (key_row (some row), record t { api_keys = row ∷ t.api_keys })
db_apply (select_key_hash i) t = (hash (option_map (λ k. k.key_hash) (find_id i t.api_keys)), t)
