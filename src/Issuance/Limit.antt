-- ===== src/Issuance/Limit.antt =====
-- src/api/routes/mod.rs: how many keys a client is issued in a window.
use agent_execution_platform.Prelude.{
  ℕ, ◌+◌, ◌-◌, ◌≤◌, ◌≡◌, refl, sym, ◌∙◌, ap, inl, inr, List, [], ◌∷◌, if◌then◌else◌, Bool-cases,
  Option-cases, arith,
}
use agent_execution_platform.Prelude.Text.{Text, text_eq, text_eq_iff}
use agent_execution_platform.Prelude.Results.{Result, is_ok}
use agent_execution_platform.Service.{Service, call_inv, call_answered}
use agent_execution_platform.Issuance.{
  IssuanceLimitError, Counters, Script, incr_expire_ttl, run_script, max_1, redis_key,
  enforce_api_key_issuance_limit,
}

module _ {S : Type 0} (redis : Service run_script S) (fingerprint : Text → Text)
    (limit window : ℕ) where
  -- One of a key's requests that was let through.
  abbrev counted : Text → Text → Result IssuanceLimitError (Unit {0}) → ℕ
  counted key client r =
      if text_eq key (redis_key redis fingerprint client) then (if is_ok r then 1 else 0) else 0

  -- The requests of these clients, in order; the result counts those let through of one key.
  unfoldable pub let_through : Text → List Text → S → ℕ
  let_through key [] s = 0
  let_through key (client ∷ clients) s =
      let (r, s') = enforce_api_key_issuance_limit redis fingerprint client limit window s in
      counted key client r + let_through key clients s'

  command : Text → Script
  command client = incr_expire_ttl (redis_key redis fingerprint client) (max_1 window)

  script_reply :
      (client : Text) (v : Counters)
      → (run_script (command client) v).0.0 ≡ v.count (redis_key redis fingerprint client) + 1
  unfolding run_script command
  script_reply client v = refl

  -- After the script, the counter of its key is one more, and the others are as they were.
  script_count :
      (key client : Text) (v : Counters)
      → (run_script (command client) v).1.count key
        ≡ (if text_eq key (redis_key redis fingerprint client) then 1 else 0) + v.count key
  unfolding run_script command
  script_count key client v = elim (Bool-cases (text_eq key (redis_key redis fingerprint client))) [
    | inl same ↦
        let (to, back) = text_eq_iff key (redis_key redis fingerprint client) in
        let e = to same in ground (arith, ap v.count e)
    | inr other ↦ ground arith
  ]

  -- The counter of a key goes up by what is let through, and never down.
  step_counts :
      (key client : Text) (s : S)
      → 1 ≤ limit
      → let (r, s') = enforce_api_key_issuance_limit redis fingerprint client limit window s in
        (counted key client r + (limit - (redis.view s').count key)
          ≤ limit - (redis.view s).count key)
  unfolding enforce_api_key_issuance_limit command
  step_counts key client s h = elim (Option-cases (redis.call (command client) s).0) [
    | inl lost ↦
        let kept =
          call_inv redis (λ v. (redis.view s).count key ≤ v.count key) (command client) s
            (omega arith) (omega (arith, script_count key client (redis.view s))) in
        ground arith
    | inr ((count, ttl), answered) ↦
        let (reply, moved) = call_answered redis (command client) s answered in
        let counts : (redis.view (redis.call (command client) s).1).count key
            ≡ (if text_eq key (redis_key redis fingerprint client) then 1 else 0)
              + (redis.view s).count key =
          ap (λ v. v.count key) moved ∙ script_count key client (redis.view s) in
        let told : count ≡ (redis.view s).count (redis_key redis fingerprint client) + 1 =
          ap (λ r. r.0) (sym reply) ∙ script_reply client (redis.view s) in
        elim (Bool-cases (text_eq key (redis_key redis fingerprint client))) [
          | inl same ↦
              let e = (text_eq_iff key (redis_key redis fingerprint client)).0 same in
              let key_count = ap (redis.view s).count e in ground arith
          | inr other ↦ ground arith
        ]
  ]

  -- However Redis answers, and whatever other clients do in between, the requests of one key that
  -- are let through are no more than the limit leaves, for a limit that is not 0; the window, in
  -- which the counter does not expire, is the whole sequence.
  pub let_through_le :
      (key : Text) (clients : List Text) (s : S)
      → 1 ≤ limit
      → let_through key clients s ≤ limit - (redis.view s).count key
  unfolding let_through
  let_through_le key [] s h = omega arith
  let_through_le key (client ∷ clients) s h = omega (
    arith,
    step_counts key client s h,
    let_through_le key clients
        (enforce_api_key_issuance_limit redis fingerprint client limit window s).1 h,
  )
