-- ===== src/Protocols/Morpho/Math.antt =====
-- src/protocols/morpho/service.rs: shares and assets, and the interest on a market. U512 is wide
-- enough for the products of two U256, so it is taken as the natural numbers.
use agent_execution_platform.Prelude.{
  ℕ, ◌+◌, ◌-◌, ◌*◌, ◌/◌, not, ◌&&◌, ◌||◌, ltb, leb, ◌==◌, if◌then◌else◌,
}
use agent_execution_platform.Prelude.Results.{Result, ok, err, fail_if, ◌>>=◌, ◌>>◌}
use agent_execution_platform.Crates.{u256_bound}
use agent_execution_platform.Protocols.Morpho.{
  MorphoMarketState, MorphoError, addition_overflow, exceeds_uint256, division_by_zero,
}

abbrev pub wad : ℕ
wad = 1_000_000_000_000_000_000

abbrev pub virtual_shares : ℕ
virtual_shares = 1_000_000

abbrev pub virtual_assets : ℕ
virtual_assets = 1

unfoldable pub u512_to_u256 : ℕ → Result MorphoError ℕ
u512_to_u256 value = if ltb value u256_bound then ok value else err exceeds_uint256

unfoldable pub checked_add : ℕ → ℕ → Result MorphoError ℕ
checked_add a b = if ltb (a + b) u256_bound then ok (a + b) else err addition_overflow

unfoldable pub checked_mul : ℕ → ℕ → Result MorphoError ℕ
checked_mul a b = u512_to_u256 (a * b)

unfoldable pub mul_div_down : ℕ → ℕ → ℕ → Result MorphoError ℕ
mul_div_down x y denominator = do
  fail_if (denominator == 0) division_by_zero
  u512_to_u256 (x * y / denominator)

unfoldable pub mul_div_up : ℕ → ℕ → ℕ → Result MorphoError ℕ
mul_div_up x y denominator = do
  fail_if (denominator == 0) division_by_zero
  if x == 0 || y == 0 then ok 0 else u512_to_u256 ((x * y + denominator - 1) / denominator)

unfoldable pub to_assets_down : ℕ → ℕ → ℕ → Result MorphoError ℕ
to_assets_down shares total_assets total_shares = do
  with_assets ← checked_add total_assets virtual_assets
  with_shares ← checked_add total_shares virtual_shares
  mul_div_down shares with_assets with_shares

unfoldable pub to_assets_up : ℕ → ℕ → ℕ → Result MorphoError ℕ
to_assets_up shares total_assets total_shares = do
  with_assets ← checked_add total_assets virtual_assets
  with_shares ← checked_add total_shares virtual_shares
  mul_div_up shares with_assets with_shares

unfoldable pub to_shares_up : ℕ → ℕ → ℕ → Result MorphoError ℕ
to_shares_up assets total_assets total_shares = do
  with_shares ← checked_add total_shares virtual_shares
  with_assets ← checked_add total_assets virtual_assets
  mul_div_up assets with_shares with_assets

unfoldable pub to_shares_down : ℕ → ℕ → ℕ → Result MorphoError ℕ
to_shares_down assets total_assets total_shares = do
  with_shares ← checked_add total_shares virtual_shares
  with_assets ← checked_add total_assets virtual_assets
  mul_div_down assets with_shares with_assets

-- The first three terms of e ^ (rate * elapsed) - 1.
unfoldable pub taylor_compounded : ℕ → ℕ → Result MorphoError ℕ
taylor_compounded rate elapsed = do
  first ← checked_mul rate elapsed
  second ← mul_div_down first first (2 * wad)
  third ← mul_div_down second first (3 * wad)
  sum ← checked_add first second
  checked_add sum third

-- The shares of the fee, which are paid out of the interest.
unfoldable pub add_fee_shares : MorphoMarketState → ℕ → Result MorphoError MorphoMarketState
add_fee_shares state interest = do
  fee_amount ← mul_div_down interest state.fee wad
  let denominator_assets = state.total_supply_assets - fee_amount
  fee_shares ← to_shares_down fee_amount denominator_assets state.total_supply_shares
  total ← checked_add state.total_supply_shares fee_shares
  ok (record state { total_supply_shares = total })

unfoldable pub accrue_fee : MorphoMarketState → ℕ → Result MorphoError MorphoMarketState
accrue_fee state interest =
    if not (state.fee == 0) && not (interest == 0) then add_fee_shares state interest else ok state

unfoldable pub accrue_interest : MorphoMarketState → ℕ → ℕ → Result MorphoError MorphoMarketState
accrue_interest state borrow_rate elapsed = do
  compounded ← taylor_compounded borrow_rate elapsed
  interest ← mul_div_down state.total_borrow_assets compounded wad
  borrowed ← checked_add state.total_borrow_assets interest
  supplied ← checked_add state.total_supply_assets interest
  accrue_fee (record state { total_borrow_assets = borrowed; total_supply_assets = supplied })
      interest

-- The state that is mutated in place, or the error on which the caller gives up.
unfoldable pub accrue_market_state_at :
    MorphoMarketState → ℕ → ℕ → Result MorphoError MorphoMarketState
accrue_market_state_at state borrow_rate timestamp =
    if leb timestamp state.last_update
    then ok state
    else accrue_interest state borrow_rate (timestamp - state.last_update)
