-- ===== src/Tests/ApiRuns.antt =====
-- Callback URLs of src/api/services/mod.rs and deliveries of src/webhook/mod.rs at small inputs.
use agent_execution_platform.Prelude.{
  ◌++◌, ℕ, suc, ◌+◌, ◌≡◌, refl, true, false, Option, none, some, List, [], ◌∷◌, ltb, length,
  replicate, if◌then◌else◌, arith,
}
use agent_execution_platform.Prelude.Text.{Text, text, trim}
use agent_execution_platform.Prelude.Results.{ok}
use agent_execution_platform.Types.{
  confirmed, queued, status_to_string, ExecutionJob, from_str_loose,
}
use agent_execution_platform.Engine.{validate, validate_call_fields}
use agent_execution_platform.Queue.{enqueue_job, dequeue_job}
use agent_execution_platform.Db.{
  insert_execution_request, update_execution_status, insert_transaction,
}
use agent_execution_platform.Worker.{
  Webhook, World, Executed, returned, worker_turn, process_job, settle, fire_webhook,
}
use agent_execution_platform.Db.Status.{status_of}
use agent_execution_platform.Callback.{
  IpAddr, InRange, v4, Url, UrlParser, is_non_public_callback_ip, validate_callback_url,
}
use agent_execution_platform.Callback.Blocks.{
  number, in_any, non_public_blocks, is_non_public_callback_ip_lem,
}
use agent_execution_platform.Callback.Accepted.{IsPublic, validate_callback_url-IsPublic}
use agent_execution_platform.Queue.Lists.{Store, redis_apply}
use agent_execution_platform.Db.Tables.{Tables, db_apply}
use agent_execution_platform.Delivery.{Post, Client, deliver}
use agent_execution_platform.Delivery.Attempts.{IsLog, Tried, deliver-Tried}
use agent_execution_platform.Wallets.{AgentWallet}
use agent_execution_platform.Api.{Services, handle_execute}
use agent_execution_platform.Api.Steps.{Handled}
use agent_execution_platform.Api.Accepting.{handle_execute-Handled}
use agent_execution_platform.Tests.CrateFixtures.{hex, decode}
use agent_execution_platform.Tests.RelayerRuns.{request}
use agent_execution_platform.Tests.Fixtures.{plain, redis, postgres, world, tables}

is_non_public_callback_ip_lem_example :
    is_non_public_callback_ip (v4 172 16 3 4) ≡ in_any (number 172 16 3 4) false non_public_blocks
is_non_public_callback_ip_lem_example =
    is_non_public_callback_ip_lem 172 16 3 4 (omega arith) (omega arith) (omega arith) (omega arith)

abbrev hook : Url
hook = record {
  scheme = text "https";
  username = [];
  password = none;
  fragment = none;
  host_str = some (text "hooks.example.com");
  href = text "https://hooks.example.com/events";
}

no_ip : (t : Text) (ip : IpAddr) → ◌≡◌ {A = Option IpAddr} none (some ip) → InRange ip
no_ip t ip h = absurd (ground arith)

abbrev urls : UrlParser
urls = record { parse = λ t. some hook; parse_ip = λ t. none; in_range = no_ip }

hook_kept :
    validate_callback_url urls (some (text " https://hooks.example.com/events "))
    ≡ ok (some hook.href)
unfolding validate_callback_url trim
hook_kept = refl

validate_callback_url-IsPublic_example :
    (parsed : Url) × (urls.parse (trim (text " https://hooks.example.com/events ")) ≡ some parsed)
    × (hook.href ≡ parsed.href)
    × IsPublic urls parsed
validate_callback_url-IsPublic_example =
    validate_callback_url-IsPublic urls (text " https://hooks.example.com/events ") hook.href
      hook_kept

-- The posts made and the seconds slept; the third post is answered by a success.
abbrev client : Client (List Post × ℕ)
client = record {
  to_string = λ w. some (text "{}");
  hmac_sha256 = λ body secret. 1 ∷ 2 ∷ [];
  post = λ r c. (ok (if ltb (length c.0) 2 then 500 else 200), (r ∷ c.0, c.1));
  sleep = λ d c. (c.0, c.1 + d);
}

client-IsLog : IsLog hex client (λ c. c.0) (λ c. c.1)
client-IsLog = record {
  post_logs = λ r c. refl;
  post_sleeps_not = λ r c. refl;
  sleep_posts_not = λ d c. refl;
  sleep_counts = λ d c. refl;
}

abbrev payload : Webhook
payload = record {
  callback_url = text "https://hooks.example.com/events";
  signing_secret = text "secret";
  request_id = 1;
  status = confirmed;
  chain = text "base";
  tx_hash = none;
  error = none;
  created_at = 0;
}

abbrev posted : Post
posted = record {
  url = payload.callback_url;
  signature = hex.encode (client.hmac_sha256 (text "{}") payload.signing_secret);
  body = text "{}";
}

third_time : deliver hex client payload ([], 0) ≡ (true, (replicate 3 posted, 6))
unfolding deliver
third_time = refl

deliver-Tried_example :
    Tried hex client
      (λ c. c.0)
      (λ c. c.1)
      client-IsLog
      3
      6
      posted
      ([], 0)
      (deliver hex client payload ([], 0))
deliver-Tried_example =
    deliver-Tried hex client (λ c. c.0) (λ c. c.1) client-IsLog payload (text "{}") ([], 0) refl

abbrev found_wallet : AgentWallet
found_wallet = record {
  id = 3;
  api_key_id = 1;
  namespaced_id = text "1::agent";
  signing_key_encrypted = [];
  agent_id = text "agent";
  eoa_address = 1 ∷ [];
  smart_wallet_address = 2 ∷ [];
}

abbrev services : Services ℕ
services = record {
  hex = hex;
  urls = urls;
  has_provider = λ chain. true;
  has_bundler = λ chain. true;
  has_paymaster_signer = λ chain. true;
  get_or_create = λ key agent n. (ok found_wallet, n);
  resolve_smart_wallet = λ chain wallet n. (ok wallet.smart_wallet_address, n);
  simulate_request = λ req chain wallet address n.
      (ok (record { success = true; gas_estimate = 1000; return_data = none; error = none }), n);
  print_address = λ a. text "0x" ++ a;
  now = λ n. n;
}

-- No request is stored yet.
abbrev fresh : World (Store ExecutionJob) Tables ℕ
fresh = record world { db = record tables { requests = λ id. none } }

handle_execute-Handled_example :
    Handled plain redis postgres services
      (postgres.view fresh.db).api_keys
      7
      fresh.redis
      (handle_execute plain redis postgres services 7 request fresh)
handle_execute-Handled_example =
    handle_execute-Handled plain redis postgres services 7 request fresh

one_more_waits :
    length (handle_execute plain redis postgres services 7 request fresh).1.redis.main_list ≡ 3
unfolding handle_execute validate from_str_loose trim validate_call_fields decode
    validate_callback_url insert_execution_request db_apply enqueue_job redis_apply
    update_execution_status
one_more_waits = refl

abbrev succeeds : ExecutionJob → ℕ → Executed × ℕ
succeeds job n = (
  returned (record {
    tx_hash = text "0xee";
    success = true;
    error = none;
    block_number = none;
    gas_used = none;
  }),
  suc n,
)

-- A worker may take the job before the handler's last update, which then overwrites its status.
confirmed_first :
    status_of 1 (worker_turn plain redis postgres succeeds 4 world).db ≡ some (text "confirmed")
unfolding worker_turn db_apply redis_apply dequeue_job process_job settle fire_webhook
    insert_transaction update_execution_status status_to_string
confirmed_first = refl

then_queued :
    status_of 1
      (update_execution_status postgres 1 queued none none none
        (worker_turn plain redis postgres succeeds 4 world).db).1
    ≡ some (text "queued")
unfolding update_execution_status worker_turn db_apply redis_apply dequeue_job process_job settle
    fire_webhook insert_transaction status_to_string
then_queued = refl
