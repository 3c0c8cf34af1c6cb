-- ===== src/Issuance.antt =====
-- src/api/routes/mod.rs: the issue of API keys to the public, with its limit for each client.
pub mod Limit
use agent_execution_platform.Prelude.{
  ℕ, zero, suc, ◌+◌, Bool, true, false, not, ◌&&◌, ◌||◌, Option, none, some, List, [], ◌∷◌, ◌++◌,
  ltb, leb, ◌==◌, length, if◌then◌else◌,
}
use agent_execution_platform.Prelude.Text.{Text, text, text_eq, is_empty, trim}
use agent_execution_platform.Prelude.Results.{Result, ok, err, or_err, fail_if, ◌>>=◌, ◌>>◌}
use agent_execution_platform.Service.{Service}

-- The counters of Redis: how often a key was incremented (none is 0), and the seconds it has left.
-- A negative reply of TTL is 0 here, since the program takes the maximum with 1.
pub record Counters : Type 0 where
  pub count : Text → ℕ
  pub ttl : Text → ℕ

-- The Lua script, which Redis runs as one command: the key and the window.
pub data Script : Type 0 where
  incr_expire_ttl : Text → ℕ → Script

abbrev pub store : {A : Type 0} → Text → A → (Text → A) → Text → A
store key a f k = if text_eq k key then a else f k

unfoldable pub run_script : Script → Counters → (ℕ × ℕ) × Counters
run_script (incr_expire_ttl key window) v =
    let count = v.count key + 1 in
    let ttl = if count == 1 then window else v.ttl key in
    ((count, ttl), record { count = store key count v.count; ttl = store key ttl v.ttl })

-- `exceeded` with the seconds to wait.
pub data IssuanceLimitError : Type 0 where
  exceeded : ℕ → IssuanceLimitError
  unavailable : IssuanceLimitError

abbrev pub max_1 : ℕ → ℕ
max_1 n = if n == 0 then 1 else n

module _ {S : Type 0} (redis : Service run_script S) (fingerprint : Text → Text) where
  abbrev pub redis_key : Text → Text
  redis_key client_identifier = text "rate_limit:public_api_key:" ++ fingerprint client_identifier

  within : ℕ → Option (ℕ × ℕ) → Result IssuanceLimitError (Unit {0})
  within limit none = err unavailable
  within limit (some (count, ttl)) = if leb count limit then ok tt else err (exceeded (max_1 ttl))

  unfoldable pub enforce_api_key_issuance_limit :
      Text → ℕ → ℕ → S → Result IssuanceLimitError (Unit {0}) × S
  unfolding within
  enforce_api_key_issuance_limit client_identifier limit window_secs s =
      let (reply, s') =
        redis.call (incr_expire_ttl (redis_key client_identifier) (max_1 window_secs)) s in
      if limit == 0 then (ok tt, s) else (within limit reply, s')

-- `char::is_control`: the Unicode category Cc.
abbrev pub is_control : ℕ → Bool
is_control c = ltb c 0x20 || (leb 0x7f c && ltb c 0xa0)

abbrev pub any_control : Text → Bool
any_control [] = false
any_control (c ∷ s) = is_control c || any_control s

pub data LabelError : Type 0 where
  label_too_long control_character : LabelError

unfoldable pub normalize_api_key_label : Option Text → Result LabelError (Option Text)
normalize_api_key_label none = ok none
normalize_api_key_label (some label) =
    let trimmed = trim label in
    if is_empty trimmed
    then ok none
    else if ltb 100 (length trimmed)
    then err label_too_long
    else if any_control trimmed
    then err control_character
    else ok (some trimmed)

pub data ClientError : Type 0 where
  header_missing header_empty not_an_address address_unavailable : ClientError

-- The text before the first comma.
abbrev pub before_comma : Text → Text
before_comma [] = []
before_comma (c ∷ s) = if c == b',' then [] else c ∷ before_comma s

abbrev pub non_empty : Text → Option Text
non_empty t = if is_empty t then none else some t

-- The headers, the peer's address as a text, and the header that the configuration names.
-- `normal_ip` parses an address and prints it.
unfoldable pub api_key_client_identifier :
    (Text → Option Text)
    → (Text → Option Text)
    → Option Text
    → Option Text
    → Result ClientError Text
api_key_client_identifier normal_ip headers connect_info none =
    or_err connect_info address_unavailable
api_key_client_identifier normal_ip headers connect_info (some header_name) = do
  raw ← or_err (headers header_name) header_missing
  first ← or_err (non_empty (trim (before_comma raw))) header_empty
  or_err (normal_ip first) not_an_address
