-- ===== src/Protocols/Balancer/Selection.antt =====
-- src/protocols/balancer_v3/service.rs: the choice of the pool with the best quote. The candidates come
-- from an index outside of the program, as addresses in text.
use agent_execution_platform.Prelude.{
  sym, ℕ, ◌+◌, ◌≡◌, refl, ap, ◌∙◌, inl, inr, Option, none, some, List, [], ◌∷◌, length, ◌==◌,
  if◌then◌else◌, arith, Option-cases,
}
use agent_execution_platform.Prelude.Text.{Text, text}
use agent_execution_platform.Prelude.Results.{Result, Result-cases, ok, err, or_err}
use agent_execution_platform.Prelude.Actions.{Action, pure, lift, ◌>>=◌}
use agent_execution_platform.Types.{Chain}
use agent_execution_platform.Crates.{Hex, U256, Ethers, Provider}
use agent_execution_platform.Protocols.Balancer.{BalancerSwapRequest, BalancerError, no_quote}
use agent_execution_platform.Protocols.Balancer.Checks.{parse_address}
use agent_execution_platform.Protocols.Balancer.Quotes.{validate_pool_for_swap, quote_swap}
use agent_execution_platform.Protocols.Balancer.Best.{
  Quote, keep, keep_found, best_of, IsBest, best_of-IsBest,
}

abbrev counted : ℕ → Option Quote → ℕ
counted n none = n
counted n (some q) = n + 1

abbrev and_found : Option Quote → List Quote → List Quote
and_found none rest = rest
and_found (some q) rest = q ∷ rest

-- `let Ok(a) = m else { continue }`.
abbrev attempt : {W A : Type 0} → Action W BalancerError A → Action W BalancerError (Option A)
attempt m w = let (r, w') = m w in (ok (elim r [ ok a ↦ some a | err e ↦ none ]), w')

abbrev nonzero : List ℕ → Option ℕ → Option Quote
nonzero pool none = none
nonzero pool (some amount) = if amount == 0 then none else some (pool, amount)

module _ {W : Type 0} (hex : Hex) {u256 : U256} (eth : Ethers u256)
    (provider_for_chain : Chain → Option (Provider W)) (chain : Chain) (req : BalancerSwapRequest)
    (sender : List ℕ) where
  abbrev in_pool : List ℕ → BalancerSwapRequest
  in_pool pool = record req { pool = eth.print_address pool }

  abbrev quote_valid : List ℕ → Option (Unit {0}) → Action W BalancerError (Option Quote)
  quote_valid pool none = pure none
  quote_valid pool (some valid) = do
    amount ← attempt (quote_swap hex eth provider_for_chain chain (in_pool pool) sender)
    pure (nonzero pool amount)

  abbrev quote_pool : Option (List ℕ) → Action W BalancerError (Option Quote)
  quote_pool none = pure none
  quote_pool (some pool) = do
    valid ← attempt (validate_pool_for_swap hex eth provider_for_chain chain (in_pool pool))
    quote_valid pool valid

  -- The quote of a candidate, if it has one.
  unfoldable pub quote_candidate : Text → Action W BalancerError (Option Quote)
  quote_candidate candidate = quote_pool (eth.parse_address candidate)

  unfoldable pub choose : List Text → Option Quote → ℕ → Action W BalancerError (Option Quote × ℕ)
  choose [] best quoted = pure (best, quoted)
  choose (candidate ∷ candidates) best quoted = do
    found ← quote_candidate candidate
    choose candidates (keep_found req.swap_kind best found) (counted quoted found)

  -- The pool, its quote, and how many pools had one.
  unfoldable pub choose_best : List Text → Action W BalancerError (List ℕ × ℕ × ℕ)
  choose_best candidates = do
    (best, quoted) ← choose candidates none 0
    (pool, quote) ← lift (or_err best no_quote)
    pure (pool, quote, quoted)

  unfoldable pub select_best_pool :
      (List ℕ → List ℕ → Action W BalancerError (List Text))
      → Action W BalancerError (List ℕ × ℕ × ℕ)
  select_best_pool discover_pair_pools = do
    token_in ← lift (parse_address eth req.token_in (text "token_in"))
    token_out ← lift (parse_address eth req.token_out (text "token_out"))
    candidates ← discover_pair_pools token_in token_out
    choose_best candidates

  -- The quotes of the candidates, each asked for in the world that the ones before it left.
  unfoldable pub quotes : List Text → W → List Quote
  quotes [] w = []
  quotes (candidate ∷ candidates) w =
      let (found, w1) = quote_candidate candidate w in
      let rest = quotes candidates w1 in elim found [ ok o ↦ and_found o rest | err e ↦ rest ]

  quote_valid_ok :
      (pool : List ℕ) (valid : Option (Unit {0})) (w : W)
      → (found : Option Quote) × ((quote_valid pool valid w).0 ≡ ok found)
  quote_valid_ok pool none w = (none, refl)
  quote_valid_ok pool (some valid) w = (_, refl)

  -- A candidate never ends the search.
  quote_pool_ok :
      (parsed : Option (List ℕ)) (w : W)
      → (found : Option Quote) × ((quote_pool parsed w).0 ≡ ok found)
  quote_pool_ok none w = (none, refl)
  quote_pool_ok (some pool) w =
      let checked =
        attempt (validate_pool_for_swap hex eth provider_for_chain chain (in_pool pool)) w in
      quote_valid_ok pool
        (elim (validate_pool_for_swap hex eth provider_for_chain chain (in_pool pool) w).0 [
          | ok a ↦ some a
          | err e ↦ none
        ])
        checked.1

  quote_candidate_ok :
      (candidate : Text) (w : W)
      → (found : Option Quote) × ((quote_candidate candidate w).0 ≡ ok found)
  unfolding quote_candidate
  quote_candidate_ok candidate w = quote_pool_ok (eth.parse_address candidate) w

  choose_step :
      (c : Text) (cs : List Text) (best : Option Quote) (quoted : ℕ) (w : W) (found : Option Quote)
      → (quote_candidate c w).0 ≡ ok found
      → choose (c ∷ cs) best quoted w
        ≡ choose cs
            (keep_found req.swap_kind best found)
            (counted quoted found)
            (quote_candidate c w).1
  unfolding choose
  choose_step c cs best quoted w found e = ground arith

  quotes_step :
      (c : Text) (cs : List Text) (w : W) (found : Option Quote)
      → (quote_candidate c w).0 ≡ ok found
      → quotes (c ∷ cs) w ≡ and_found found (quotes cs (quote_candidate c w).1)
  unfolding quotes
  quotes_step c cs w found e = ground arith

  -- How a search ends that has these quotes before it.
  abbrev ended : Option Quote → ℕ → List Quote → Result BalancerError (Option Quote × ℕ)
  ended best quoted qs = ok (best_of req.swap_kind best qs, quoted + length qs)

  ended_step :
      (best : Option Quote) (quoted : ℕ) (found : Option Quote) (qs : List Quote)
      → ended (keep_found req.swap_kind best found) (counted quoted found) qs
        ≡ ended best quoted (and_found found qs)
  ended_step best quoted none qs = refl
  ended_step best quoted (some q) qs =
      ap (λ n. ok (best_of req.swap_kind (keep req.swap_kind best q) qs, n)) (omega arith)

  -- The search ends with the best of the quotes, and with how many there were.
  choose_lem :
      (candidates : List Text) (best : Option Quote) (quoted : ℕ) (w : W)
      → (choose candidates best quoted w).0 ≡ ended best quoted (quotes candidates w)
  unfolding choose quotes
  choose_lem [] best quoted w = ap (λ n. ok (best, n)) (omega arith)
  choose_lem (c ∷ cs) best quoted w =
      let (found, e) = quote_candidate_ok c w in
      let w1 = (quote_candidate c w).1 in
      ap (λ r. r.0) (choose_step c cs best quoted w found e)
      ∙ choose_lem cs (keep_found req.swap_kind best found) (counted quoted found) w1
      ∙ ended_step best quoted found (quotes cs w1)
      ∙ ap (ended best quoted) (sym (quotes_step c cs w found e))

  chosen_best :
      (best : Option Quote) (count : ℕ) (pool : List ℕ) (quote quoted : ℕ) (candidates : List Text)
      (w : W)
      → (choose candidates none 0 w).0 ≡ ok (best, count)
      → (choose_best candidates w).0 ≡ ok (pool, quote, quoted)
      → (best ≡ some (pool, quote)) × (count ≡ quoted)
  unfolding choose_best
  chosen_best best count pool quote quoted candidates w e h = elim (Option-cases best) [
    | inl n ↦ absurd (ground arith)
    | inr (q, some_q) ↦ ground arith
  ]

  choose_best-IsBest :
      (candidates : List Text) (w : W) (pool : List ℕ) (quote quoted : ℕ)
      → (choose_best candidates w).0 ≡ ok (pool, quote, quoted)
      → (IsBest req.swap_kind (pool, quote) (quotes candidates w))
        × (quoted ≡ length (quotes candidates w))
  choose_best-IsBest candidates w pool quote quoted h =
      let qs = quotes candidates w in
      let (best, count) =
        chosen_best (best_of req.swap_kind none qs) (0 + length qs) pool quote quoted candidates w
          (choose_lem candidates none 0 w) h in
      (best_of-IsBest req.swap_kind qs (pool, quote) best, omega (arith, count))

  -- The pool that is selected has one of the quotes that the candidates of the index gave, none of
  -- those is better for the agent, and the number that is reported is how many there were.
  pub select_best_pool-IsBest :
      (discover_pair_pools : List ℕ → List ℕ → Action W BalancerError (List Text)) (w : W)
      (pool : List ℕ) (quote quoted : ℕ)
      → (select_best_pool discover_pair_pools w).0 ≡ ok (pool, quote, quoted)
      → (candidates : List Text) × (w1 : W) × ((token_in token_out : List ℕ) × (discover_pair_pools
              token_in token_out w
            ≡ (ok candidates, w1)))
        × (IsBest req.swap_kind (pool, quote) (quotes candidates w1))
        × (quoted ≡ length (quotes candidates w1))
  unfolding select_best_pool
  select_best_pool-IsBest discover w pool quote quoted h =
      elim (Result-cases (parse_address eth req.token_in (text "token_in"))) [
        | inr (x, e) ↦ absurd (ground arith)
        | inl (token_in, e) ↦
            elim (Result-cases (parse_address eth req.token_out (text "token_out"))) [
              | inr (x, e2) ↦ absurd (ground arith)
              | inl (token_out, e2) ↦
                  let (found, w1) = discover token_in token_out w in
                  elim (Result-cases found) [
                    | inr (x, e3) ↦ absurd (ground arith)
                    | inl (candidates, e3) ↦
                        let (best, count) =
                          choose_best-IsBest candidates w1 pool quote quoted (ground arith) in
                        (candidates, w1, (token_in, token_out, ground arith), best, count)
                  ]
            ]
      ]
