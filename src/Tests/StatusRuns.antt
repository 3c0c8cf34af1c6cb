-- ===== src/Tests/StatusRuns.antt =====
-- The lookup of src/db/mod.rs for the status of a request.
use agent_execution_platform.Prelude.{◌≡◌, refl, some, none}
use agent_execution_platform.Prelude.Results.{ok}
use agent_execution_platform.Db.{get_execution_request_for_api_key}
use agent_execution_platform.Db.Tables.{db_apply}
use agent_execution_platform.Db.Ownership.{get_execution_request_for_api_key_lem}
use agent_execution_platform.Tests.Fixtures.{postgres, row, tables}

shown : (get_execution_request_for_api_key postgres 1 5 tables).0 ≡ ok (some (row 1))
unfolding get_execution_request_for_api_key db_apply
shown = refl

not_shown : (get_execution_request_for_api_key postgres 1 6 tables).0 ≡ ok none
unfolding get_execution_request_for_api_key db_apply
not_shown = refl

get_execution_request_for_api_key_lem_example :
    ((row 1).api_key_id ≡ some 5) × (tables.requests 1 ≡ some (row 1))
get_execution_request_for_api_key_lem_example =
    get_execution_request_for_api_key_lem postgres 1 5 tables (row 1) shown
