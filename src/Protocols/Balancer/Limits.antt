-- ===== src/Protocols/Balancer/Limits.antt =====
-- src/protocols/balancer_v3/service.rs: the limit of a swap, from the quote and the slippage, and its
-- deadline. Subtractions of U256 below zero panic.
use native.Mathlib.Nat.{mul-le-mul_left}
use agent_execution_platform.Prelude.{
  sym, ap, ◌∙◌, ℕ, ◌+◌, ◌-◌, ◌*◌, ◌/◌, ◌≤◌, ◌<◌, ◌≡◌, Option, none, some, ltb, leb, ◌==◌,
  if◌then◌else◌, arith,
}
use agent_execution_platform.Prelude.Results.{
  Result, ok, err, fail_if, fail_if_ok, bind_ok, ok_inj, ◌>>=◌, ◌>>◌,
}
use agent_execution_platform.Crates.{u256_bound}
use agent_execution_platform.Protocols.Balancer.{
  BalancerSwapKind, exact_in, exact_out, BalancerError, limit_above_quote, limit_below_quote,
  zero_quote, limit_overflow, limit_zero, clock_before_epoch, deadline_passed, deadline_overflow,
  deadline_too_far, panicked, uint48_max,
}

abbrev pub bps_scale : ℕ
bps_scale = 10_000

abbrev pub default_deadline_secs : ℕ
default_deadline_secs = 1200

unfoldable pub validate_explicit_limit : BalancerSwapKind → ℕ → ℕ → Result BalancerError (Unit {0})
validate_explicit_limit exact_in quote limit = fail_if (ltb quote limit) limit_above_quote
validate_explicit_limit exact_out quote limit = fail_if (ltb limit quote) limit_below_quote

abbrev checked : ℕ → Result BalancerError ℕ
checked n = if ltb n u256_bound then ok n else err limit_overflow

unfoldable pub limit_for : BalancerSwapKind → ℕ → ℕ → Result BalancerError ℕ
limit_for exact_in quote bps = do
  fail_if (ltb bps_scale bps) panicked
  product ← checked (quote * (bps_scale - bps))
  ok (product / bps_scale)
limit_for exact_out quote bps = do
  numerator ← checked (quote * (bps_scale + bps))
  rounded ← checked (numerator + (bps_scale - 1))
  ok (rounded / bps_scale)

unfoldable pub limit_from_quote : BalancerSwapKind → ℕ → ℕ → Result BalancerError ℕ
limit_from_quote kind quote slippage_bps = do
  fail_if (quote == 0) zero_quote
  limit ← limit_for kind quote slippage_bps
  fail_if (limit == 0) limit_zero
  ok limit

-- The deadline by the clock: none where it is before 1970. Seconds are u64.
abbrev pub chosen_deadline : Option ℕ → ℕ → Result BalancerError ℕ
chosen_deadline (some deadline) now = if leb deadline now then err deadline_passed else ok deadline
chosen_deadline none now =
    if ltb (now + default_deadline_secs) 18_446_744_073_709_551_616
    then ok (now + default_deadline_secs)
    else err deadline_overflow

unfoldable pub resolve_deadline : Option ℕ → Option ℕ → Result BalancerError ℕ
resolve_deadline none requested = err clock_before_epoch
resolve_deadline (some now) requested = do
  deadline ← chosen_deadline requested now
  fail_if (ltb uint48_max deadline) deadline_too_far
  ok deadline

-- How far the slippage may move the price: the limit is the nearest number inside.
abbrev pub IsWithin : BalancerSwapKind → ℕ → ℕ → ℕ → Type 0
IsWithin exact_in bps quote limit =
    (limit * bps_scale ≤ quote * (bps_scale - bps))
    × (quote * (bps_scale - bps) < (limit + 1) * bps_scale)
IsWithin exact_out bps quote limit =
    (quote * (bps_scale + bps) ≤ limit * bps_scale)
    × (limit * bps_scale < quote * (bps_scale + bps) + bps_scale)

-- The agent gets no less than the quote, or pays no more.
abbrev pub IsNoBetter : BalancerSwapKind → ℕ → ℕ → Type 0
IsNoBetter exact_in quote limit = limit ≤ quote
IsNoBetter exact_out quote limit = quote ≤ limit

checked_lem : (n m : ℕ) → checked n ≡ ok m → m ≡ n
checked_lem n m h = ground arith

-- Less than the whole of the quote is no more than the quote.
part_le :
    (quote part limit : ℕ) → part ≤ bps_scale → limit * bps_scale ≤ quote * part → limit ≤ quote
part_le quote part limit h below = omega (arith, mul-le-mul_left quote h)

whole_le : (quote more limit : ℕ) → quote * (bps_scale + more) ≤ limit * bps_scale → quote ≤ limit
whole_le quote more limit h = omega arith

limit_for_in :
    (quote bps limit : ℕ)
    → limit_for exact_in quote bps ≡ ok limit
    → limit ≡ quote * (bps_scale - bps) / bps_scale
unfolding limit_for
limit_for_in quote bps limit h =
    let (fits, h1) = fail_if_ok (ltb bps_scale bps) panicked _ h in
    let (product, e, h2) = bind_ok (checked (quote * (bps_scale - bps))) _ h1 in
    let same = checked_lem (quote * (bps_scale - bps)) product e in
    sym (ok_inj (product / bps_scale) limit h2) ∙ ap (λ n. n / bps_scale) same

limit_for_out :
    (quote bps limit : ℕ)
    → limit_for exact_out quote bps ≡ ok limit
    → limit ≡ (quote * (bps_scale + bps) + (bps_scale - 1)) / bps_scale
unfolding limit_for
limit_for_out quote bps limit h =
    let (numerator, e, h1) = bind_ok (checked (quote * (bps_scale + bps))) _ h in
    let (rounded, e2, h2) = bind_ok (checked (numerator + (bps_scale - 1))) _ h1 in
    let same = checked_lem (quote * (bps_scale + bps)) numerator e in
    let same2 = checked_lem (numerator + (bps_scale - 1)) rounded e2 in
    sym (ok_inj (rounded / bps_scale) limit h2)
    ∙ ap (λ n. n / bps_scale) (same2 ∙ ap (λ n. n + (bps_scale - 1)) same)

floor_le :
    (n limit : ℕ) → limit ≡ n / bps_scale → (limit * bps_scale ≤ n) × (n < (limit + 1) * bps_scale)
floor_le n limit h = omega arith

ceil_ge :
    (n limit : ℕ)
    → limit ≡ (n + (bps_scale - 1)) / bps_scale
    → (n ≤ limit * bps_scale) × (limit * bps_scale < n + bps_scale)
ceil_ge n limit h = omega arith

limit_for-IsWithin :
    (kind : BalancerSwapKind) (quote bps limit : ℕ)
    → limit_for kind quote bps ≡ ok limit
    → (IsWithin kind bps quote limit) × (IsNoBetter kind quote limit)
limit_for-IsWithin exact_in quote bps limit h =
    let e = limit_for_in quote bps limit h in
    let below = floor_le (quote * (bps_scale - bps)) limit e in
    ((below.0, below.1), part_le quote (bps_scale - bps) limit (omega arith) below.0)
limit_for-IsWithin exact_out quote bps limit h =
    let e = limit_for_out quote bps limit h in
    let above = ceil_ge (quote * (bps_scale + bps)) limit e in
    ((above.0, above.1), whole_le quote bps limit above.0)

-- A limit from the quote is at least one, and on the agent's side of the quote by the slippage.
pub limit_from_quote-IsWithin :
    (kind : BalancerSwapKind) (quote bps limit : ℕ)
    → limit_from_quote kind quote bps ≡ ok limit
    → (1 ≤ limit) × (IsWithin kind bps quote limit) × (IsNoBetter kind quote limit)
unfolding limit_from_quote
limit_from_quote-IsWithin kind quote bps limit h =
    let (some_quote, h1) = fail_if_ok (quote == 0) zero_quote _ h in
    let (n, e, h2) = bind_ok (limit_for kind quote bps) _ h1 in
    let (positive, h3) = fail_if_ok (n == 0) limit_zero _ h2 in
    let same = ok_inj n limit h3 in
    let (within, no_better) = limit_for-IsWithin kind quote bps limit (e ∙ ap ok same) in
    (ground (arith, positive, same), within, no_better)
