-- ===== src/Protocols/Balancer/Protected.antt =====
-- src/protocols/balancer_v3/service.rs: what holds of a swap that was resolved.
use mathlib.Core.Path.{subst}
use agent_execution_platform.Prelude.{
  ℕ, ◌≤◌, ◌<◌, ◌≡◌, refl, sym, ap, ◌∙◌, inl, inr, Option, none, some, List, arith,
}
use agent_execution_platform.Prelude.Text.{Text, trim, is_empty}
use agent_execution_platform.Prelude.Results.{Result, ok, Result-cases, ok_inj}
use agent_execution_platform.Prelude.Actions.{Action}
use agent_execution_platform.Types.{Chain}
use agent_execution_platform.Crates.{Hex, U256, Ethers, Provider}
use agent_execution_platform.Protocols.Platform.{Platform}
use agent_execution_platform.Protocols.Balancer.{
  BalancerSwapKind, exact_in, exact_out, BalancerSwapRequest, BalancerError, uint160_max,
  uint48_max,
}
use agent_execution_platform.Protocols.Balancer.Checks.{
  validate_swap_request, validate_permit2_amount, amount, explicit_limit,
}
use agent_execution_platform.Protocols.Balancer.Limits.{
  validate_explicit_limit, resolve_deadline, IsWithin, IsNoBetter, limit_from_quote-IsWithin,
}
use agent_execution_platform.Protocols.Balancer.Service.{
  ResolvedSwap, parse_chain, limit_of, most_of, quoted_pool, resolve_quoted, resolve_swap,
}

-- A deadline that was accepted is ahead of the clock and fits in 48 bits.
resolve_deadline_ok :
    (now requested : Option ℕ) (deadline : ℕ)
    → resolve_deadline now requested ≡ ok deadline
    → ((t : ℕ) × (now ≡ some t) × (t < deadline)) × (deadline ≤ uint48_max)
unfolding resolve_deadline
resolve_deadline_ok none requested deadline h = absurd (ground arith)
resolve_deadline_ok (some t) none deadline h = ((t, refl, ground arith), ground arith)
resolve_deadline_ok (some t) (some given) deadline h = ((t, refl, ground arith), ground arith)

validate_permit2_amount_ok : (n : ℕ) → validate_permit2_amount n ≡ ok tt → n ≤ uint160_max
unfolding validate_permit2_amount
validate_permit2_amount_ok n h = ground arith

explicit_ok :
    (kind : BalancerSwapKind) (quote limit : ℕ)
    → validate_explicit_limit kind quote limit ≡ ok tt
    → IsNoBetter kind quote limit
unfolding validate_explicit_limit
explicit_ok exact_in quote limit h = ground arith
explicit_ok exact_out quote limit h = ground arith

module _ {W : Type 0} (hex : Hex) {u256 : U256} (eth : Ethers u256)
    (provider_for_chain : Chain → Option (Provider W)) (services : Platform W)
    (discover_pair_pools : List ℕ → List ℕ → Action W BalancerError (List Text))
    (now : Option ℕ) where
  -- What the swap takes is known and fits in the allowance of Permit2.
  abbrev Spends : BalancerSwapRequest → BalancerSwapKind → ℕ → Type 0
  Spends req exact_in limit = (n : ℕ) × (amount eth req ≡ ok n) × (n ≤ uint160_max)
  Spends req exact_out limit = limit ≤ uint160_max

  -- The limit is on the agent's side of the quote, as near to it as the slippage says where none was
  -- given; the deadline is ahead of the clock.
  abbrev pub IsProtected : BalancerSwapRequest → ResolvedSwap → Type 0
  IsProtected req r =
      (IsNoBetter req.swap_kind r.quoted_amount r.limit)
      × (req.limit_raw ≡ none
          → (1 ≤ r.limit) × (IsWithin req.swap_kind req.slippage_bps r.quoted_amount r.limit))
      × (Spends req req.swap_kind r.limit)
      × ((t : ℕ) × (now ≡ some t) × (t < r.deadline))
      × (r.deadline ≤ uint48_max)

  limit_of_ok :
      (req : BalancerSwapRequest) (quote limit : ℕ) (explicit : Option ℕ)
      → limit_of hex eth provider_for_chain services discover_pair_pools now req quote explicit
        ≡ ok limit
      → (IsNoBetter req.swap_kind quote limit)
        × (explicit ≡ none → (1 ≤ limit) × (IsWithin req.swap_kind req.slippage_bps quote limit))
  limit_of_ok req quote limit none h =
      let (positive, within, behind) =
        limit_from_quote-IsWithin req.swap_kind quote req.slippage_bps limit h in
      (behind, λ none_given. (positive, within))
  limit_of_ok req quote limit (some given) h =
      elim (Result-cases (validate_explicit_limit req.swap_kind quote given)) [
        | inr (x, e) ↦ absurd (ground arith)
        | inl (unit, e) ↦ (
          subst (IsNoBetter req.swap_kind quote) (ground arith)
              (explicit_ok req.swap_kind quote given e),
          λ none_given. absurd (ground arith),
        )
      ]

  abbrev limit_in : BalancerSwapRequest → ℕ → Option ℕ → Result BalancerError ℕ
  limit_in req quote explicit =
      limit_of hex eth provider_for_chain services discover_pair_pools now req quote explicit

  abbrev most_in : BalancerSwapRequest → ℕ → Result BalancerError ℕ
  most_in req limit =
      most_of hex eth provider_for_chain services discover_pair_pools now req req.swap_kind limit

  resolve_quoted_ok :
      (req : BalancerSwapRequest) (sender pool : List ℕ) (quote : ℕ) (w : W) (r : ResolvedSwap)
      → (resolve_quoted hex eth provider_for_chain services discover_pair_pools now req sender pool
          quote w).0
        ≡ ok r
      → ((explicit : Option ℕ) × (explicit_limit eth req ≡ ok explicit)
          × (limit_in req quote explicit ≡ ok r.limit))
        × ((most : ℕ) × (most_in req r.limit ≡ ok most) × (validate_permit2_amount most ≡ ok tt))
        × (resolve_deadline now req.deadline ≡ ok r.deadline)
        × (r.quoted_amount ≡ quote)
  unfolding resolve_quoted
  resolve_quoted_ok req sender pool quote w r h = elim (Result-cases (explicit_limit eth req)) [
    | inr (x, e) ↦ absurd (ground arith)
    | inl (explicit, e) ↦ elim (Result-cases (limit_in req quote explicit)) [
      | inr (x, e2) ↦ absurd (ground arith)
      | inl (limit, e2) ↦ elim (Result-cases (most_in req limit)) [
        | inr (x, e3) ↦ absurd (ground arith)
        | inl (most, e3) ↦ elim (Result-cases (validate_permit2_amount most)) [
          | inr (x, e4) ↦ absurd (ground arith)
          | inl (passed, e4) ↦ elim (Result-cases (resolve_deadline now req.deadline)) [
            | inr (x, e5) ↦ absurd (ground arith)
            | inl (deadline, e5) ↦
                let same : limit ≡ r.limit = ground arith in
                (
                  (explicit, e, e2 ∙ ap ok same),
                  (most, ap (most_in req) (sym same) ∙ e3, e4),
                  ground arith,
                  ground arith,
                )
          ]
        ]
      ]
    ]
  ]

  no_limit :
      (req : BalancerSwapRequest) (explicit : Option ℕ)
      → explicit_limit eth req ≡ ok explicit
      → req.limit_raw ≡ none
      → explicit ≡ none
  unfolding explicit_limit
  no_limit req explicit h e = ground arith

  spends :
      (req : BalancerSwapRequest) (kind : BalancerSwapKind) (limit most : ℕ)
      → most_of hex eth provider_for_chain services discover_pair_pools now req kind limit ≡ ok most
      → most ≤ uint160_max
      → Spends req kind limit
  spends req exact_in limit most h below = (most, h, below)
  spends req exact_out limit most h below = omega (arith, ok_inj limit most h)

  resolve_quoted-IsProtected :
      (req : BalancerSwapRequest) (sender pool : List ℕ) (quote : ℕ) (w : W) (r : ResolvedSwap)
      → (resolve_quoted hex eth provider_for_chain services discover_pair_pools now req sender pool
          quote w).0
        ≡ ok r
      → IsProtected req r
  resolve_quoted-IsProtected req sender pool quote w r h =
      let ((explicit, given, bounded), (most, spent, fits), timed, quoted) =
        resolve_quoted_ok req sender pool quote w r h in
      let (behind, within) = limit_of_ok req quote r.limit explicit bounded in
      let (ahead, short) = resolve_deadline_ok now req.deadline r.deadline timed in
      (
        subst (λ q. IsNoBetter req.swap_kind q r.limit) (sym quoted) behind,
        λ none_given.
            subst (λ q. (1 ≤ r.limit) × (IsWithin req.swap_kind req.slippage_bps q r.limit))
              (sym quoted) (within (no_limit req explicit given none_given)),
        spends req req.swap_kind r.limit most spent (validate_permit2_amount_ok most fits),
        ahead,
        short,
      )

  resolve_swap_ok :
      (api_key_id : ℕ) (req : BalancerSwapRequest) (w : W) (r : ResolvedSwap)
      → (resolve_swap hex eth provider_for_chain services discover_pair_pools now api_key_id req
          w).0
        ≡ ok r
      → (sender pool : List ℕ) × (quote : ℕ) × (w1 : W) × ((resolve_quoted hex eth
            provider_for_chain services discover_pair_pools now req sender pool quote w1).0
          ≡ ok r)
  unfolding resolve_swap
  resolve_swap_ok api_key_id req w r h = elim (Result-cases (validate_swap_request eth req)) [
    | inr (x, e) ↦ absurd (ground arith)
    | inl (valid, e) ↦ elim (Result-cases (parse_chain req.chain)) [
      | inr (x, e2) ↦ absurd (ground arith)
      | inl (chain, e2) ↦
          let (found, w1) = services.get_or_create api_key_id req.agent_id w in
          elim (Result-cases found) [
            | inr (x, e3) ↦ absurd (ground arith)
            | inl (wallet, e3) ↦
                let (placed, w2) = services.resolve_chain_smart_wallet_address chain wallet w1 in
                elim (Result-cases placed) [
                  | inr (x, e4) ↦ absurd (ground arith)
                  | inl (sender, e4) ↦
                      let (quoted, w3) =
                        quoted_pool hex eth provider_for_chain services discover_pair_pools now
                          (is_empty (trim req.pool)) chain req sender w2 in
                      elim (Result-cases quoted) [
                        | inr (x, e5) ↦ absurd (ground arith)
                        | inl ((pool, quote), e5) ↦ (sender, pool, quote, w3, ground arith)
                      ]
                ]
          ]
    ]
  ]

  -- A swap that was resolved has a limit that is no better for the agent than the quote, and the
  -- nearest number that the slippage allows, at least one, where the request gave none; what it takes
  -- fits in 160 bits, and its deadline is after the clock and fits in 48 bits. This is so whatever the
  -- node, the registry and the index answered.
  pub resolve_swap-IsProtected :
      (api_key_id : ℕ) (req : BalancerSwapRequest) (w : W) (r : ResolvedSwap)
      → (resolve_swap hex eth provider_for_chain services discover_pair_pools now api_key_id req
          w).0
        ≡ ok r
      → IsProtected req r
  resolve_swap-IsProtected api_key_id req w r h =
      let (sender, pool, quote, w1, h1) = resolve_swap_ok api_key_id req w r h in
      resolve_quoted-IsProtected req sender pool quote w1 r h1
