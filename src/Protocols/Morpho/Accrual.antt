-- ===== src/Protocols/Morpho/Accrual.antt =====
-- src/protocols/morpho/service.rs: what the interest does to the totals of a market.
use native.Mathlib.Nat.{mul-le-mul_right, mul-le-mul_left}
use agent_execution_platform.Prelude.{
  ℕ, ◌+◌, ◌-◌, ◌*◌, ◌≤◌, ◌≡◌, refl, ◌∙◌, inl, inr, not, ◌&&◌, arith, leb, ◌==◌, Bool-cases,
}
use agent_execution_platform.Prelude.Results.{ok, bind_ok, ok_inj}
use agent_execution_platform.Protocols.Morpho.{MorphoMarketState, MorphoError}
use agent_execution_platform.Protocols.Morpho.Math.{
  wad, virtual_assets, virtual_shares, checked_add, mul_div_down, to_shares_down, taylor_compounded,
  add_fee_shares, accrue_fee, accrue_interest, accrue_market_state_at,
}
use agent_execution_platform.Protocols.Morpho.Rounding.{
  checked_add_ok, mul_div_down_ok, to_shares_down_ok,
}

-- A market in which no more is lent than was supplied, and whose fee is a part of the interest.
pub record IsMarket (state : MorphoMarketState) : Type 0 where
  pub lent : state.total_borrow_assets ≤ state.total_supply_assets
  pub fee_part : state.fee ≤ wad

-- What a supply share is worth in the one state is worth at least as much in the other: the assets
-- over the shares, both with the virtual ones, as a product.
abbrev pub KeepsValue : MorphoMarketState → MorphoMarketState → Type 0
KeepsValue before after =
    (before.total_supply_assets + virtual_assets) * (after.total_supply_shares + virtual_shares)
    ≤ (after.total_supply_assets + virtual_assets) * (before.total_supply_shares + virtual_shares)

-- The totals of supply, before the interest and after it and the fee.
diluted :
    (A I S F f : ℕ)
    → F ≤ I
    → f * (A + I - F + virtual_assets) ≤ F * (S + virtual_shares)
    → (A + virtual_assets) * (S + f + virtual_shares)
      ≤ (A + I + virtual_assets) * (S + virtual_shares)
diluted A I S F f part minted = omega (
  arith,
  mul-le-mul_left {m = A + virtual_assets} {n = A + I - F + virtual_assets} f (omega arith),
  mul-le-mul_right {m = F} {n = I} (S + virtual_shares) part,
  minted,
)

fee_within : (I fee F : ℕ) → fee ≤ wad → F * wad ≤ I * fee → F ≤ I
fee_within I fee F part h = omega (arith, mul-le-mul_left {m = fee} {n = wad} I part)

add_fee_shares_ok :
    (state out : MorphoMarketState) (A I : ℕ)
    → state.fee ≤ wad
    → state.total_supply_assets ≡ A + I
    → add_fee_shares state I ≡ ok out
    → (out.total_supply_assets ≡ A + I)
      × (out.total_borrow_assets ≡ state.total_borrow_assets)
      × (out.fee ≡ state.fee)
      × ((A + virtual_assets) * (out.total_supply_shares + virtual_shares)
          ≤ (A + I + virtual_assets) * (state.total_supply_shares + virtual_shares))
unfolding add_fee_shares
add_fee_shares_ok state out A I part sum h =
    let (F, e1, h1) = bind_ok (mul_div_down I state.fee wad) _ h in
    let (f, e2, h2) =
      bind_ok (to_shares_down F (state.total_supply_assets - F) state.total_supply_shares) _ h1 in
    let (total, e3, h3) = bind_ok (checked_add state.total_supply_shares f) _ h2 in
    let (positive, share) = mul_div_down_ok I state.fee wad F e1 in
    let minted =
      to_shares_down_ok F (state.total_supply_assets - F) state.total_supply_shares f e2 in
    let total_is = checked_add_ok state.total_supply_shares f total e3 in
    rw (← ok_inj (record state { total_supply_shares = total }) out h3, total_is)
      (
        sum,
        refl,
        refl,
        diluted A I state.total_supply_shares F f (fee_within I state.fee F part share)
            (rw (← sum) minted),
      )

-- The effect of interest `I` on the totals, with or without a fee.
record Accrued (state out : MorphoMarketState) (I : ℕ) : Type 0 where
  supplied : out.total_supply_assets ≡ state.total_supply_assets + I
  borrowed : out.total_borrow_assets ≡ state.total_borrow_assets + I
  same_fee : out.fee ≡ state.fee
  keeps : KeepsValue state out

accrue_interest_ok :
    (state out : MorphoMarketState) (rate elapsed : ℕ)
    → state.fee ≤ wad
    → accrue_interest state rate elapsed ≡ ok out
    → (I : ℕ) × Accrued state out I
unfolding accrue_interest accrue_fee
accrue_interest_ok state out rate elapsed part h =
    let (compounded, e1, h1) = bind_ok (taylor_compounded rate elapsed) _ h in
    let (I, e2, h2) = bind_ok (mul_div_down state.total_borrow_assets compounded wad) _ h1 in
    let (borrowed, e3, h3) = bind_ok (checked_add state.total_borrow_assets I) _ h2 in
    let (supplied, e4, h4) = bind_ok (checked_add state.total_supply_assets I) _ h3 in
    (
      I,
      with_fee I borrowed supplied (checked_add_ok state.total_borrow_assets I borrowed e3)
          (checked_add_ok state.total_supply_assets I supplied e4) h4,
    )
  where
    with_fee :
        (I borrowed supplied : ℕ)
        → borrowed ≡ state.total_borrow_assets + I
        → supplied ≡ state.total_supply_assets + I
        → accrue_fee
            (record state { total_borrow_assets = borrowed; total_supply_assets = supplied })
            I
          ≡ ok out
        → Accrued state out I
    with_fee I borrowed supplied b s e =
        let paid = record state {
          total_borrow_assets = borrowed;
          total_supply_assets = supplied;
        } in
        elim (Bool-cases (not (state.fee == 0) && not (I == 0))) [
          | inl charged ↦
              let (s', b', fee, keeps) =
                add_fee_shares_ok paid out state.total_supply_assets I part s (ground arith) in
              record { supplied = s'; borrowed = b' ∙ b; same_fee = fee; keeps = rw s' keeps }
          | inr free ↦ rw (← ok_inj {E = MorphoError} paid out (ground arith)) (record {
            supplied = s;
            borrowed = b;
            same_fee = refl;
            keeps =
                rw s (mul-le-mul_right (state.total_supply_shares + virtual_shares) (omega arith));
          })
        ]

-- Interest keeps a market a market, whatever the rate and the time that has passed, and never
-- lowers the value of a supply share, even after the fee is minted.
pub accrue_market_state_at-IsMarket :
    (state out : MorphoMarketState) (borrow_rate timestamp : ℕ)
    → IsMarket state
    → accrue_market_state_at state borrow_rate timestamp ≡ ok out
    → IsMarket out × KeepsValue state out
unfolding accrue_market_state_at
accrue_market_state_at-IsMarket state out rate now m h =
    elim (Bool-cases (leb now state.last_update)) [
      | inl early ↦ rw (← ok_inj {E = MorphoError} state out (ground arith)) (m, omega arith)
      | inr later ↦
          let (I, a) =
            accrue_interest_ok state out rate (now - state.last_update) m.fee_part (ground arith) in
          (
            record {
              lent =
                  rw (a.supplied, a.borrowed)
                    (more state.total_borrow_assets state.total_supply_assets I m.lent);
              fee_part = rw a.same_fee m.fee_part;
            },
            a.keeps,
          )
    ]
  where
    more : (b s I : ℕ) → b ≤ s → b + I ≤ s + I
    more b s I h = omega arith
