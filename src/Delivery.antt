-- ===== src/Delivery.antt =====
-- src/webhook/mod.rs: the delivery of a webhook, with its retries. The JSON of the payload, the MAC
-- and the HTTP client are parameters; the state is the network's, time included.
pub mod Attempts
use agent_execution_platform.Prelude.{
  ℕ, zero, suc, ◌+◌, ◌*◌, Bool, true, false, ◌&&◌, Option, none, some, List, ltb, leb, ◌==◌,
  if◌then◌else◌,
}
use agent_execution_platform.Prelude.Text.{Text}
use agent_execution_platform.Prelude.Results.{Result, ok, err}
use agent_execution_platform.Prelude.Actions.{Action}
use agent_execution_platform.Crates.{Hex}
use agent_execution_platform.Worker.{Webhook}

abbrev pub max_retries : ℕ
max_retries = 3

-- In seconds.
abbrev pub initial_backoff : ℕ
initial_backoff = 2

-- The request that every attempt posts.
pub record Post : Type 0 where
  pub url : Text
  pub signature : Text
  pub body : Text

pub record Client (C : Type 0) : Type 0 where
  pub to_string : Webhook → Option Text
  -- HMAC-SHA256 of a body under a secret.
  pub hmac_sha256 : Text → Text → List ℕ
  -- The status of the answer.
  pub post : Post → Action C Text ℕ
  pub sleep : ℕ → C → C

module _ {C : Type 0} (hex : Hex) (client : Client C) where
  unfoldable pub compute_signature : Text → Text → Text
  compute_signature body secret = hex.encode (client.hmac_sha256 body secret)

  -- `status.is_success()`.
  abbrev pub is_delivered : Result Text ℕ → Bool
  is_delivered (ok status) = leb 200 status && ltb status 300
  is_delivered (err e) = false

  -- The attempts that are left, the next one first.
  unfoldable pub attempts : ℕ → ℕ → Post → C → Bool × C
  attempts zero backoff request c = (false, c)
  attempts (suc left) backoff request c =
      let (answer, c') = client.post request c in
      let rest = attempts left (backoff * 2) request (client.sleep backoff c') in
      if is_delivered answer then (true, c') else if left == 0 then (false, c') else rest

  unfoldable pub deliver : Webhook → C → Bool × C
  unfolding compute_signature attempts
  deliver payload c = elim (client.to_string payload) [
    | none ↦ (false, c)
    | some body ↦
        attempts max_retries initial_backoff
          (record {
            url = payload.callback_url;
            signature = compute_signature body payload.signing_secret;
            body = body;
          })
          c
  ]
