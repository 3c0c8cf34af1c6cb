-- ===== src/Protocols/Morpho/Covered.antt =====
-- src/protocols/morpho/service.rs: what an action that passes the guard satisfies.
use native.Mathlib.Nat.{le_of_mul-le-mul_right, mul-le-mul_right}
use agent_execution_platform.Prelude.{
  ℕ, ◌+◌, ◌-◌, ◌*◌, ◌≤◌, ◌≡◌, ◌⊎◌, inl, inr, Option, none, some, arith, ltb, ◌==◌, Bool-cases,
}
use agent_execution_platform.Prelude.Text.{Text}
use agent_execution_platform.Prelude.Decimal.{exp10}
use agent_execution_platform.Prelude.Results.{
  Result, ok, or_err, fail_if, bind_ok, fail_if_ok, ok_inj,
}
use agent_execution_platform.Protocols.Morpho.{
  MorphoActionRequest, borrow, withdraw_collateral, MarketContext, MorphoPosition, assets,
  MorphoError,
}
use agent_execution_platform.Protocols.Morpho.Math.{
  wad, virtual_shares, virtual_assets, checked_add, mul_div_down, to_shares_up, to_assets_up,
}
use agent_execution_platform.Protocols.Morpho.Rounding.{
  mul_div_down_ok, checked_add_ok, to_assets_up_ok, to_shares_up_ok,
}
use agent_execution_platform.Protocols.Morpho.Health.{
  parse_min_health_factor, project_borrow, project_withdraw, check_capacity, check_health,
  enforce_health_guard, guarded, read_factor,
}

-- The debt at the factor `minimum` is within what the collateral, at the oracle's price, may back:
-- `lltv` and `minimum` are in units of 10 ^ 18 and the price of 10 ^ 36.
abbrev pub Backed : MarketContext → ℕ → ℕ → ℕ → Type 0
Backed context minimum collateral debt =
    (price : ℕ) × (context.oracle_price ≡ some price)
    × (debt * minimum * exp10 36 ≤ collateral * price * context.params.lltv)

chain_bounds :
    (collateral price value lltv capacity need scale : ℕ)
    → value * scale ≤ collateral * price
    → need ≤ capacity * wad
    → capacity * wad ≤ value * lltv
    → need * scale ≤ collateral * price * lltv
chain_bounds collateral price value lltv capacity need scale h1 h2 h3 = omega (
  arith,
  mul-le-mul_right {m = need} {n = value * lltv} scale (omega arith),
  mul-le-mul_right {m = value * scale} {n = collateral * price} lltv h1,
)

check_health_ok :
    (context : MarketContext) (minimum collateral debt : ℕ)
    → check_health context minimum (collateral, debt) ≡ ok tt
    → (debt ≡ 0) ⊎ Backed context minimum collateral debt
unfolding check_health check_capacity
check_health_ok context minimum collateral debt h = elim (Bool-cases (debt == 0)) [
  | inl none_owed ↦ inl (ground arith)
  | inr owed ↦ inr (backed (ground arith))
]
  where
    backed :
        check_capacity context minimum collateral debt ≡ ok tt
        → Backed context minimum collateral debt
    backed e =
        let (price, p, h1) = bind_ok (or_err context.oracle_price _) _ e in
        let (value, q, h2) = bind_ok (mul_div_down collateral price (exp10 36)) _ h1 in
        let (capacity, r, h3) = bind_ok (mul_div_down value context.params.lltv wad) _ h2 in
        (
          price,
          given context.oracle_price _ price p,
          chain_bounds collateral price value context.params.lltv capacity (debt * minimum)
              (exp10 36) (mul_div_down_ok collateral price (exp10 36) value q).1
              (enough (capacity * wad) (debt * minimum) _ h3)
              (mul_div_down_ok value context.params.lltv wad capacity r).1,
        )
      where
        given :
            (o : Option ℕ) (e : MorphoError) (price : ℕ) → or_err o e ≡ ok price → o ≡ some price
        given none e price h = absurd (ground arith)
        given (some n) e price h = ground arith

        enough : (a b : ℕ) (e : MorphoError) → fail_if (ltb a b) e ≡ ok tt → b ≤ a
        enough a b e h = ground arith

module _ (parse_units : Text → ℕ → Option ℕ) where
  guarded_ok :
      (req : MorphoActionRequest) (project : ℕ → Result MorphoError (ℕ × ℕ))
      (context : MarketContext) (amount : ℕ)
      → guarded parse_units req project context (assets amount) ≡ ok tt
      → (minimum : ℕ) × (projected : ℕ × ℕ) × (parse_min_health_factor parse_units
            req.min_health_factor
          ≡ ok minimum)
        × (project amount ≡ ok projected)
        × (check_health context minimum projected ≡ ok tt)
  guarded_ok req project context amount h =
      let (minimum, e1, h1) =
        bind_ok (parse_min_health_factor parse_units req.min_health_factor) _ h in
      let (projected, e2, h2) = bind_ok (project amount) _ h1 in (minimum, projected, e1, e2, h2)

  at_least_one :
      (raw : Option Text) (minimum : ℕ)
      → parse_min_health_factor parse_units raw ≡ ok minimum
      → wad ≤ minimum
  unfolding parse_min_health_factor
  at_least_one raw minimum h =
      let (value, e, h1) = bind_ok (read_factor parse_units raw) _ h in
      let (p, h2) = fail_if_ok (ltb value wad) _ _ h1 in
      rw (← ok_inj value minimum h2) (ground arith)

  -- The debt after a borrow is at least what was borrowed.
  owes :
      (A a S n p debt : ℕ)
      → a * (S + virtual_shares) ≤ n * (A + virtual_assets)
      → (p + n) * (A + a + virtual_assets) ≤ debt * (S + n + virtual_shares)
      → a ≤ debt
  owes A a S n p debt h1 h2 =
      le_of_mul-le-mul_right {m = a} {n = debt} {k = S + n + virtual_shares} (omega (arith, h1, h2))
        (omega arith)

  -- A borrow that passes is within the market's liquidity. The debt that it leads to is what the
  -- shares of the position with the new ones on top are worth, rounded up, in the market with the
  -- amount and the new shares added; it is no less than the amount, and it is zero or backed by the
  -- collateral at a factor of at least 1.
  pub enforce_health_guard-borrow :
      (req : MorphoActionRequest) (context : MarketContext) (position : MorphoPosition) (amount : ℕ)
      → enforce_health_guard parse_units req borrow context position (assets amount) ≡ ok tt
      → (minimum new_shares debt : ℕ) × (parse_min_health_factor parse_units req.min_health_factor
          ≡ ok minimum)
        × (wad ≤ minimum)
        × (amount ≤ context.state.total_supply_assets - context.state.total_borrow_assets)
        × (to_shares_up amount context.state.total_borrow_assets context.state.total_borrow_shares
            ≡ ok new_shares)
        × (to_assets_up
              (position.borrow_shares + new_shares)
              (context.state.total_borrow_assets + amount)
              (context.state.total_borrow_shares + new_shares)
            ≡ ok debt)
        × (amount ≤ debt)
        × ((debt ≡ 0) ⊎ Backed context minimum position.collateral debt)
  unfolding enforce_health_guard project_borrow
  enforce_health_guard-borrow req context position amount h =
      let state = context.state in
      let (minimum, projected, e1, e2, e3) =
        guarded_ok req (project_borrow context position) context amount h in
      let (p1, h1) =
        fail_if_ok (ltb (state.total_supply_assets - state.total_borrow_assets) amount) _ _ e2 in
      let (n, q1, h2) =
        bind_ok (to_shares_up amount state.total_borrow_assets state.total_borrow_shares) _ h1 in
      let (A', q2, h3) = bind_ok (checked_add state.total_borrow_assets amount) _ h2 in
      let (S', q3, h4) = bind_ok (checked_add state.total_borrow_shares n) _ h3 in
      let (shares', q4, h5) = bind_ok (checked_add position.borrow_shares n) _ h4 in
      let (debt, q5, h6) = bind_ok (to_assets_up shares' A' S') _ h5 in
      (
        minimum,
        n,
        debt,
        e1,
        at_least_one req.min_health_factor minimum e1,
        ground arith,
        q1,
        rw
            (
              ← checked_add_ok state.total_borrow_assets amount A' q2,
              ← checked_add_ok state.total_borrow_shares n S' q3,
              ← checked_add_ok position.borrow_shares n shares' q4,
            )
            q5,
        owes state.total_borrow_assets amount state.total_borrow_shares n position.borrow_shares
            debt (to_shares_up_ok amount state.total_borrow_assets state.total_borrow_shares n q1)
            (rw
              (
                ← checked_add_ok state.total_borrow_assets amount A' q2,
                ← checked_add_ok state.total_borrow_shares n S' q3,
                ← checked_add_ok position.borrow_shares n shares' q4,
              )
              (to_assets_up_ok shares' A' S' debt q5)),
        check_health_ok context minimum position.collateral debt
            (rw (ok_inj (position.collateral, debt) projected h6) e3),
      )

  -- A withdrawal of collateral that passes takes no more than there is, and what is left backs the
  -- debt at a factor of at least 1.
  pub enforce_health_guard-withdraw_collateral :
      (req : MorphoActionRequest) (context : MarketContext) (position : MorphoPosition) (amount : ℕ)
      → enforce_health_guard parse_units req withdraw_collateral context position (assets amount)
        ≡ ok tt
      → (minimum debt : ℕ) × (parse_min_health_factor parse_units req.min_health_factor
          ≡ ok minimum)
        × (wad ≤ minimum)
        × (amount ≤ position.collateral)
        × (to_assets_up position.borrow_shares context.state.total_borrow_assets
              context.state.total_borrow_shares
            ≡ ok debt)
        × ((debt ≡ 0) ⊎ Backed context minimum (position.collateral - amount) debt)
  unfolding enforce_health_guard project_withdraw
  enforce_health_guard-withdraw_collateral req context position amount h =
      let state = context.state in
      let (minimum, projected, e1, e2, e3) =
        guarded_ok req (project_withdraw context position) context amount h in
      let (p1, h1) = fail_if_ok (ltb position.collateral amount) _ _ e2 in
      let (debt, q, h2) =
        bind_ok
          (to_assets_up position.borrow_shares state.total_borrow_assets state.total_borrow_shares)
          _ h1 in
      (
        minimum,
        debt,
        e1,
        at_least_one req.min_health_factor minimum e1,
        ground arith,
        q,
        check_health_ok context minimum (position.collateral - amount) debt
            (rw (ok_inj (position.collateral - amount, debt) projected h2) e3),
      )
