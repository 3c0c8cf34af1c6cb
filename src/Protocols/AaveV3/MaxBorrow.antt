-- ===== src/Protocols/AaveV3/MaxBorrow.antt =====
-- src/protocols/aave_v3/service.rs: the amount that "max" stands for passes the guard of a borrow.
use native.Mathlib.Nat.{
  div-le_self, le-div_iff_mul-le, div-le_of_le-mul, mul-div-le, mul-le-mul_left,
  le-mul_of_pos_right,
}
use agent_execution_platform.Prelude.{
  ℕ, zero, suc, ◌+◌, ◌-◌, ◌*◌, ◌/◌, ◌<◌, ◌≤◌, ◌≡◌, refl, ◌⊎◌, inl, inr, false, arith, ltb, leb,
  ◌==◌, if◌then◌else◌, Bool-cases,
}
use agent_execution_platform.Prelude.Decimal.{exp10}
use agent_execution_platform.Prelude.Results.{
  Result, ok, err, fail_if, map_err, bind_ok, bind_eq, fail_if_ok, fail_if_passed, ok_inj,
}
use agent_execution_platform.Crates.{U256, u256_bound}
use agent_execution_platform.Protocols.AaveV3.Requests.{AaveBorrowRequest, AaveAccountData}
use agent_execution_platform.Protocols.AaveV3.Reads.{min_health_factor_ray}
use agent_execution_platform.Protocols.AaveV3.Health.{
  AaveError, adapter, below_precision, health_factor_too_low, min_u256, checked_add, checked_mul,
  checked_div, token_amount_to_base, base_to_token_amount_floor, collateral_at_threshold,
  max_borrow_base_for_health, max_borrow_amount, check_borrow,
}
use agent_execution_platform.Protocols.AaveV3.Guard.{checked_mul_ok}

exp10_positive : (d : ℕ) → 1 ≤ exp10 d
exp10_positive zero = omega arith
exp10_positive (suc d) = omega (arith, exp10_positive d)

checked_div_ok : (a b n : ℕ) (e : AaveError) → checked_div a b e ≡ ok n → (1 ≤ b) × (n ≡ a / b)
checked_div_ok a b n e h = ground arith

-- What is known of the limit: its collateral fits, and what may be borrowed keeps the quotient.
record IsLimit (account : AaveAccountData) (min limit : ℕ) : Type 0 where
  collateral : ℕ
  at_threshold : collateral_at_threshold account ≡ ok collateral
  fits : collateral * exp10 18 < u256_bound
  min_positive : 1 ≤ min
  remains : limit ≡ collateral * exp10 18 / min - account.total_debt_base

remaining :
    (scaled product min most debt limit : ℕ) (e : AaveError)
    → scaled ≡ product
    → checked_div scaled min e ≡ ok most
    → ◌≡◌ {A = Result AaveError ℕ} (if leb most debt then ok 0 else ok (most - debt)) (ok limit)
    → (1 ≤ min) × (limit ≡ product / min - debt)
remaining scaled product min most debt limit e same q h =
    let (positive, is_quotient) = checked_div_ok scaled min most e q in
    rw (← same, ← is_quotient) (positive, ground arith)

max_borrow_base_for_health-IsLimit :
    (account : AaveAccountData) (min limit : ℕ)
    → max_borrow_base_for_health account min ≡ ok limit
    → IsLimit account min limit
unfolding max_borrow_base_for_health
max_borrow_base_for_health-IsLimit account min limit h =
    let (collateral, e1, h1) = bind_ok (collateral_at_threshold account) _ h in
    let (scaled, e2, h2) = bind_ok (checked_mul collateral (exp10 18) _) _ h1 in
    let (product, fits) = checked_mul_ok collateral (exp10 18) _ scaled e2 in
    let (most, e3, h3) = bind_ok (checked_div scaled min _) _ h2 in
    let (positive, left) =
      remaining scaled (collateral * exp10 18) min most account.total_debt_base limit _ product e3
        h3 in
    record {
      collateral = collateral;
      at_threshold = e1;
      fits = fits;
      min_positive = positive;
      remains = left;
    }

-- The amount in tokens, rounded down, and back in base units, rounded down again, is no more.
back_in_base :
    (base price amount d : ℕ)
    → base_to_token_amount_floor base price d ≡ ok amount
    → (requested : ℕ) × (token_amount_to_base amount price d ≡ ok requested)
      × (requested ≤ base)
      × (amount < u256_bound)
unfolding base_to_token_amount_floor token_amount_to_base
back_in_base base price amount d h =
    let (product, e1, h1) = bind_ok (checked_mul base (exp10 d) _) _ h in
    let (is_product, fits) = checked_mul_ok base (exp10 d) _ product e1 in
    let (positive, is_amount) = checked_div_ok product price amount _ h1 in
    let within : amount * price ≤ base * exp10 d =
      fewer product price amount (base * exp10 d) is_product is_amount positive in
    (
      amount * price / exp10 d,
      bind_eq (checked_mul amount price _) _ (amount * price)
          (fitting amount price _ (base * exp10 d) within fits)
          (dividing (amount * price) (exp10 d) _ (exp10_positive d)),
      div-le_of_le-mul (exp10 d) (more within),
      small within fits positive,
    )
  where
    fewer :
        (product price amount whole : ℕ)
        → product ≡ whole
        → amount ≡ product / price
        → 1 ≤ price
        → amount * price ≤ whole
    fewer product price amount whole e q h = rw (← e) ((le-div_iff_mul-le h).0 (omega arith))

    fitting :
        (a b : ℕ) (e : AaveError) (whole : ℕ)
        → a * b ≤ whole
        → whole < u256_bound
        → checked_mul a b e ≡ ok (a * b)
    fitting a b e whole h fits = ground arith

    dividing : (a b : ℕ) (e : AaveError) → 1 ≤ b → checked_div a b e ≡ ok (a / b)
    dividing a b e h = ground arith

    small :
        amount * price ≤ base * exp10 d
        → base * exp10 d < u256_bound
        → 1 ≤ price
        → amount < u256_bound
    small h fits positive = omega (arith, le-mul_of_pos_right amount positive)

    more : amount * price ≤ base * exp10 d → amount * price ≤ exp10 d * base
    more h = omega arith

-- The health factor after a borrow within the limit.
keeps_factor :
    (scaled min debt requested limit : ℕ)
    → 1 ≤ min
    → limit ≡ scaled / min - debt
    → requested ≤ limit
    → 1 ≤ requested
    → (debt + requested ≤ scaled) × (min ≤ scaled / (debt + requested))
keeps_factor scaled min debt requested limit positive left within some_debt =
    let below : debt + requested ≤ scaled / min = omega arith in
    (
      omega (arith, div-le_self scaled min),
      (le-div_iff_mul-le (omega arith)).1
          (multiplied below (mul-le-mul_left min below) (mul-div-le scaled min)),
    )
  where
    multiplied :
        debt + requested ≤ scaled / min
        → min * (debt + requested) ≤ min * (scaled / min)
        → min * (scaled / min) ≤ scaled
        → min * (debt + requested) ≤ scaled
    multiplied a b c = omega arith

module _ (u256 : U256) where
  within_limits :
      (req : AaveBorrowRequest) (account : AaveAccountData) (price d amount requested min limit : ℕ)
      → min_health_factor_ray u256 req ≡ ok min
      → IsLimit account min limit
      → token_amount_to_base amount price d ≡ ok requested
      → requested ≤ min_u256 account.available_borrows_base limit
      → (requested == 0) ≡ false
      → check_borrow u256 req account price d amount ≡ ok tt
  unfolding check_borrow
  within_limits req account price d amount requested min limit ray l e within some_debt =
      let scaled = l.collateral * exp10 18 in
      let projected = account.total_debt_base + requested in
      let (small, kept) =
        keeps_factor scaled min account.total_debt_base requested limit l.min_positive l.remains
          (second account.available_borrows_base limit within) (ground arith) in
      bind_eq (token_amount_to_base amount price d) _ requested e (
        fail_if_passed (requested == 0) _ _ some_debt (
          fail_if_passed (ltb account.available_borrows_base requested) _ _
            (first account.available_borrows_base limit within)
            (bind_eq (checked_add account.total_debt_base requested _) _ projected
              (adding account.total_debt_base scaled _ small l.fits)
              (fail_if_passed (projected == 0) _ _ (positive account.total_debt_base) (
                bind_eq (collateral_at_threshold account) _ l.collateral l.at_threshold (
                  bind_eq (checked_mul l.collateral (exp10 18) _) _ scaled
                    (fitting l.collateral (exp10 18) _ l.fits)
                    (bind_eq (map_err adapter (min_health_factor_ray u256 req)) _ min (rw ray refl)
                      (healthy scaled projected kept))))))))
    where
      second : (a b : ℕ) → requested ≤ min_u256 a b → requested ≤ b
      second a b h = ground arith

      first : (a b : ℕ) → requested ≤ min_u256 a b → ltb a requested ≡ false
      first a b h = ground arith

      adding :
          (a whole : ℕ) (x : AaveError)
          → a + requested ≤ whole
          → whole < u256_bound
          → checked_add a requested x ≡ ok (a + requested)
      adding a whole x h fits = ground arith

      positive : (a : ℕ) → (a + requested == 0) ≡ false
      positive a = ground arith

      fitting : (a b : ℕ) (x : AaveError) → a * b < u256_bound → checked_mul a b x ≡ ok (a * b)
      fitting a b x h = ground arith

      healthy : (a b : ℕ) → min ≤ a / b → fail_if (ltb (a / b) min) health_factor_too_low ≡ ok tt
      healthy a b h = ground arith

  -- What the guard makes of the amount that "max" stands for.
  pub max_borrow_checked :
      (req : AaveBorrowRequest) (account : AaveAccountData) (price d amount min : ℕ)
      → min_health_factor_ray u256 req ≡ ok min
      → max_borrow_amount account min price d ≡ ok amount
      → (amount < u256_bound)
        × ((check_borrow u256 req account price d amount ≡ ok tt)
            ⊎ (check_borrow u256 req account price d amount ≡ err below_precision))
  unfolding check_borrow max_borrow_amount
  max_borrow_checked req account price d amount min ray h =
      let (limit, e1, h1) = bind_ok (max_borrow_base_for_health account min) _ h in
      let (taken, e2, h2) =
        bind_ok (base_to_token_amount_floor (min_u256 account.available_borrows_base limit) price d)
          _ h1 in
      let (some_amount, h3) = fail_if_ok (taken == 0) _ _ h2 in
      let same = ok_inj taken amount h3 in
      let (requested, e, within, small) =
        back_in_base (min_u256 account.available_borrows_base limit) price amount d
          (rw (← same) e2) in
      (
        small,
        elim (Bool-cases (requested == 0)) [
          | inl none_left ↦
              inr (bind_eq (token_amount_to_base amount price d) _ requested e (rw none_left refl))
          | inr some_debt ↦ inl (
              within_limits req account price d amount requested min limit ray
                (max_borrow_base_for_health-IsLimit account min limit e1) e within some_debt)
        ],
      )
