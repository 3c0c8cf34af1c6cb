-- ===== src/Protocols/AaveV3/Guard.antt =====
-- src/protocols/aave_v3/service.rs: what a borrow that passes the guard satisfies.
use native.Mathlib.Nat.{le-div_iff_mul-le}
use agent_execution_platform.Prelude.{
  ℕ, ◌+◌, ◌*◌, ◌/◌, ◌<◌, ◌≤◌, ◌≡◌, refl, Bool, true, false, arith, ltb, ◌==◌,
}
use agent_execution_platform.Prelude.Decimal.{exp10}
use agent_execution_platform.Prelude.Results.{
  Result, ok, err, fail_if, map_err, bind_ok, fail_if_ok,
}
use agent_execution_platform.Crates.{U256, u256_bound}
use agent_execution_platform.Protocols.AaveV3.Requests.{AaveBorrowRequest, AaveAccountData}
use agent_execution_platform.Protocols.AaveV3.Reads.{min_health_factor_ray}
use agent_execution_platform.Protocols.AaveV3.Health.{
  AaveError, adapter, amount_overflow, invalid_decimals, checked_add, checked_mul, checked_div,
  token_amount_to_base, collateral_at_threshold, check_borrow,
}

pub checked_mul_ok :
    (a b : ℕ) (e : AaveError) (n : ℕ)
    → checked_mul a b e ≡ ok n
    → (n ≡ a * b) × (a * b < u256_bound)
checked_mul_ok a b e n h = ground arith

checked_add_ok :
    (a b : ℕ) (e : AaveError) (n : ℕ)
    → checked_add a b e ≡ ok n
    → (n ≡ a + b) × (a + b < u256_bound)
checked_add_ok a b e n h = ground arith

-- The collateral that counts, in base units: a threshold in basis points of the whole.
abbrev pub counted_collateral : AaveAccountData → ℕ
counted_collateral account =
    account.total_collateral_base * account.current_liquidation_threshold_bps / 10_000

-- The debt after a borrow of `requested` leaves the health factor at `min` or above, as a fraction
-- of which both are multiplied by 10 ^ 18, and stays within what the pool offers.
pub record IsSafe (account : AaveAccountData) (requested min : ℕ) : Type 0 where
  pub positive : 1 ≤ requested
  pub offered : requested ≤ account.available_borrows_base
  pub healthy : min * (account.total_debt_base + requested) ≤ counted_collateral account * exp10 18

pub collateral_at_threshold_ok :
    (account : AaveAccountData) (n : ℕ)
    → collateral_at_threshold account ≡ ok n
    → n ≡ counted_collateral account
unfolding collateral_at_threshold
collateral_at_threshold_ok account n h = ground arith

pub map_err_ok :
    {E F A : Type 0} (r : Result E A) (f : E → F) (a : A) → map_err f r ≡ ok a → r ≡ ok a
map_err_ok (ok b) f a h = ground arith
map_err_ok (err e) f a h = absurd (ground arith)

in_base :
    (amount asset_price decimals requested : ℕ)
    → token_amount_to_base amount asset_price decimals ≡ ok requested
    → requested ≡ amount * asset_price / exp10 decimals
unfolding token_amount_to_base
in_base amount asset_price decimals requested h =
    let (product, e, h1) = bind_ok (checked_mul amount asset_price amount_overflow) _ h in
    let same = (checked_mul_ok amount asset_price amount_overflow product e).0 in
    rw (← same) (over product (exp10 decimals) requested h1)
  where
    over : (p q n : ℕ) → checked_div p q invalid_decimals ≡ ok n → n ≡ p / q
    over p q n h = ground arith

fail_if_last : {E : Type 0} (b : Bool) (e : E) → fail_if b e ≡ ok tt → b ≡ false
fail_if_last true e h = absurd (ground arith)
fail_if_last false e h = refl

-- A quotient that is not below `min`.
not_below : (n d min : ℕ) → (d == 0) ≡ false → ltb (n / d) min ≡ false → min * d ≤ n
not_below n d min positive h = (le-div_iff_mul-le (ground arith)).0 (ground arith)

safe :
    (account : AaveAccountData) (requested projected collateral scaled min : ℕ)
    → (requested == 0) ≡ false
    → ltb account.available_borrows_base requested ≡ false
    → projected ≡ account.total_debt_base + requested
    → (projected == 0) ≡ false
    → collateral ≡ counted_collateral account
    → scaled ≡ collateral * exp10 18
    → ltb (scaled / projected) min ≡ false
    → IsSafe account requested min
safe account requested projected collateral scaled min p2 p3 sum p5 counted product p9 = record {
  positive = ground arith;
  offered = ground arith;
  healthy = rw (← sum, ← counted, ← product) (not_below scaled projected min p5 p9);
}

module _ (u256 : U256) where
  pub check_borrow_ok :
      (req : AaveBorrowRequest) (account : AaveAccountData) (asset_price decimals amount : ℕ)
      → check_borrow u256 req account asset_price decimals amount ≡ ok tt
      → (requested min : ℕ) × (requested ≡ amount * asset_price / exp10 decimals)
        × (min_health_factor_ray u256 req ≡ ok min)
        × IsSafe account requested min
  unfolding check_borrow
  check_borrow_ok req account asset_price decimals amount h =
      let (requested, e1, h1) = bind_ok (token_amount_to_base amount asset_price decimals) _ h in
      let (p2, h2) = fail_if_ok (requested == 0) _ _ h1 in
      let (p3, h3) = fail_if_ok (ltb account.available_borrows_base requested) _ _ h2 in
      let (projected, e4, h4) = bind_ok (checked_add account.total_debt_base requested _) _ h3 in
      let (p5, h5) = fail_if_ok (projected == 0) _ _ h4 in
      let (collateral, e6, h6) = bind_ok (collateral_at_threshold account) _ h5 in
      let (scaled, e7, h7) = bind_ok (checked_mul collateral (exp10 18) _) _ h6 in
      let (min, e8, h8) = bind_ok (map_err adapter (min_health_factor_ray u256 req)) _ h7 in
      let e9 = map_err_ok (min_health_factor_ray u256 req) adapter min e8 in
      let p9 = fail_if_last (ltb (scaled / projected) min) _ h8 in
      (
        requested,
        min,
        in_base amount asset_price decimals requested e1,
        e9,
        safe account requested projected collateral scaled min p2 p3
            (checked_add_ok account.total_debt_base requested _ projected e4).0 p5
            (collateral_at_threshold_ok account collateral e6)
            (checked_mul_ok collateral (exp10 18) _ scaled e7).0 p9,
      )
