-- ===== src/Tests/IssuanceRuns.antt =====
-- The limit on API keys of src/api/routes/mod.rs for two clients.
use agent_execution_platform.Prelude.{◌-◌, ◌≤◌, ◌≡◌, refl, [], ◌∷◌, some, none, arith}
use agent_execution_platform.Prelude.Text.{Text, text, trim}
use agent_execution_platform.Prelude.Results.{ok}
use agent_execution_platform.Service.{Service}
use agent_execution_platform.Issuance.{
  Counters, run_script, enforce_api_key_issuance_limit, normalize_api_key_label,
  api_key_client_identifier,
}
use agent_execution_platform.Issuance.Limit.{let_through, let_through_le}
use agent_execution_platform.Tests.Fixtures.{instant}

abbrev counters : Service run_script Counters
counters = instant run_script

abbrev empty : Counters
empty = record { count = λ k. 0; ttl = λ k. 0 }

abbrev key : Text
key = text "rate_limit:public_api_key:a"

let_through_le_example :
    let_through counters (λ t. t) 2 60 key (text "a" ∷ text "b" ∷ text "a" ∷ text "a" ∷ []) empty
    ≤ 2 - 0
let_through_le_example =
    let_through_le counters (λ t. t) 2 60 key (text "a" ∷ text "b" ∷ text "a" ∷ text "a" ∷ []) empty
      (omega arith)

two_pass :
    let_through counters (λ t. t) 2 60 key (text "a" ∷ text "b" ∷ text "a" ∷ text "a" ∷ []) empty
    ≡ 2
unfolding let_through enforce_api_key_issuance_limit run_script
two_pass = refl

label_trimmed : normalize_api_key_label (some (text " bot ")) ≡ ok (some (text "bot"))
unfolding normalize_api_key_label trim
label_trimmed = refl

first_forwarded :
    api_key_client_identifier some
      (λ h. some (text "10.0.0.1, 10.0.0.2"))
      none
      (some (text "x-forwarded-for"))
    ≡ ok (text "10.0.0.1")
unfolding api_key_client_identifier trim
first_forwarded = refl
