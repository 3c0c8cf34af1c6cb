-- ===== src/Protocols/Balancer/Checks.antt =====
-- src/protocols/balancer_v3/adapter.rs: the validation of a request for a swap, and its numbers.
use agent_execution_platform.Prelude.{
  ℕ, Bool, false, ◌||◌, Option, none, some, List, ltb, ◌==◌, if◌then◌else◌, replicate, map,
}
use agent_execution_platform.Prelude.Text.{Text, text, text_eq, trim, is_empty, ascii_lower}
use agent_execution_platform.Prelude.Results.{Result, ok, err, or_err, fail_if, ◌>>=◌, ◌>>◌}
use agent_execution_platform.Crates.{U256, Ethers}
use agent_execution_platform.Protocols.Balancer.{
  BalancerSwapKind, exact_in, exact_out, BalancerSwapRequest, BalancerError, unsupported_chain,
  agent_id_required, zero_pool, zero_token, same_token, slippage_out_of_range, deadline_not_uint48,
  exceeds_uint160, invalid_address, not_integer, not_positive, uint160_max, uint48_max,
}

-- `Address::zero`.
abbrev pub zero_address : List ℕ
zero_address = replicate 20 0

abbrev pub is_zero : List ℕ → Bool
is_zero a = text_eq a zero_address

unfoldable pub validate_chain : Text → Result BalancerError (Unit {0})
validate_chain chain =
    let name = map ascii_lower (trim chain) in
    if text_eq name (text "ethereum") || text_eq name (text "eth") || text_eq name (text "sepolia")
    then ok tt
    else err unsupported_chain

unfoldable pub validate_permit2_amount : ℕ → Result BalancerError (Unit {0})
validate_permit2_amount amount = fail_if (ltb uint160_max amount) exceeds_uint160

unfoldable pub validate_deadline : Option ℕ → Result BalancerError (Unit {0})
validate_deadline none = ok tt
validate_deadline (some deadline) =
    fail_if (deadline == 0 || ltb uint48_max deadline) deadline_not_uint48

module _ {u256 : U256} (eth : Ethers u256) where
  unfoldable pub parse_address : Text → Text → Result BalancerError (List ℕ)
  parse_address value field = or_err (eth.parse_address (trim value)) (invalid_address field)

  unfoldable pub parse_positive_u256 : Text → Text → Result BalancerError ℕ
  parse_positive_u256 value field = do
    parsed ← or_err (u256.from_dec_str (trim value)) (not_integer field)
    fail_if (parsed == 0) (not_positive field)
    ok parsed

  -- The pool of a request, which is chosen later if the field is empty.
  abbrev pub given_pool : Text → Result BalancerError (Option (List ℕ))
  given_pool pool =
      let parsed = parse_address pool (text "pool") in
      if is_empty (trim pool) then ok none else elim parsed [ ok a ↦ ok (some a) | err e ↦ err e ]

  abbrev pub is_zero_pool : Option (List ℕ) → Bool
  is_zero_pool none = false
  is_zero_pool (some a) = is_zero a

  abbrev check_amount : BalancerSwapKind → ℕ → Result BalancerError (Unit {0})
  check_amount exact_in amount = validate_permit2_amount amount
  check_amount exact_out amount = ok tt

  abbrev check_limit : BalancerSwapKind → Option Text → Result BalancerError (Unit {0})
  check_limit kind none = ok tt
  check_limit exact_in (some raw) = do parse_positive_u256 raw (text "limit_raw"); ok tt
  check_limit exact_out (some raw) = do
    limit ← parse_positive_u256 raw (text "limit_raw")
    validate_permit2_amount limit

  unfoldable pub validate_swap_request : BalancerSwapRequest → Result BalancerError (Unit {0})
  validate_swap_request req = do
    validate_chain req.chain
    fail_if (is_empty (trim req.agent_id)) agent_id_required
    pool ← given_pool req.pool
    token_in ← parse_address req.token_in (text "token_in")
    token_out ← parse_address req.token_out (text "token_out")
    fail_if (is_zero_pool pool) zero_pool
    fail_if (is_zero token_in || is_zero token_out) zero_token
    fail_if (text_eq token_in token_out) same_token
    amount ← parse_positive_u256 req.amount_raw (text "amount_raw")
    check_amount req.swap_kind amount
    check_limit req.swap_kind req.limit_raw
    fail_if (ltb 10_000 req.slippage_bps) slippage_out_of_range
    validate_deadline req.deadline

  unfoldable pub amount : BalancerSwapRequest → Result BalancerError ℕ
  amount req = parse_positive_u256 req.amount_raw (text "amount_raw")

  unfoldable pub explicit_limit : BalancerSwapRequest → Result BalancerError (Option ℕ)
  explicit_limit req = elim req.limit_raw [
    | none ↦ ok none
    | some raw ↦ elim (parse_positive_u256 raw (text "limit_raw")) [
      | ok n ↦ ok (some n)
      | err e ↦ err e
    ]
  ]
