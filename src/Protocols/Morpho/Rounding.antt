-- ===== src/Protocols/Morpho/Rounding.antt =====
-- src/protocols/morpho/service.rs: the direction in which shares and assets are rounded.
use native.Mathlib.Nat.{le_of_mul-le-mul_right, lt-div-mul-add, le-div_iff_mul-le}
use agent_execution_platform.Prelude.{
  ℕ, zero, suc, ◌+◌, ◌-◌, ◌*◌, ◌/◌, ◌≤◌, ◌≡◌, inl, inr, true, ◌||◌, arith, ◌==◌, if◌then◌else◌,
  Bool-cases,
}
use agent_execution_platform.Prelude.Results.{ok, bind_ok, fail_if_ok}
use agent_execution_platform.Protocols.Morpho.Math.{
  virtual_assets, virtual_shares, u512_to_u256, checked_add, mul_div_down, mul_div_up,
  to_assets_down, to_assets_up, to_shares_down, to_shares_up,
}

pub checked_add_ok : (a b n : ℕ) → checked_add a b ≡ ok n → n ≡ a + b
unfolding checked_add
checked_add_ok a b n h = ground arith

narrowed : (v n : ℕ) → u512_to_u256 v ≡ ok n → n ≡ v
unfolding u512_to_u256
narrowed v n h = ground arith

-- The quotient from below, and from above.
pub mul_div_down_ok : (x y d n : ℕ) → mul_div_down x y d ≡ ok n → (1 ≤ d) × (n * d ≤ x * y)
unfolding mul_div_down
mul_div_down_ok x y d n h =
    let (p, h1) = fail_if_ok (d == 0) _ _ h in
    let positive : 1 ≤ d = ground arith in
    (positive, rw (narrowed (x * y / d) n h1) ((le-div_iff_mul-le positive).0 (omega arith)))

pub mul_div_up_ok : (x y d n : ℕ) → mul_div_up x y d ≡ ok n → (1 ≤ d) × (x * y ≤ n * d)
unfolding mul_div_up
mul_div_up_ok x y d n h =
    let (p, h1) = fail_if_ok (d == 0) _ _ h in
    let positive : 1 ≤ d = ground arith in (positive, above positive h1)
  where
    rounded : (m : ℕ) → 1 ≤ d → m ≤ (m + d - 1) / d * d
    rounded m positive = omega (arith, lt-div-mul-add {a = m + d - 1} positive)

    none_at_all : (x y : ℕ) → (x == 0 || y == 0) ≡ true → x * y ≤ n * d
    none_at_all zero y e = omega arith
    none_at_all (suc x) zero e = omega arith
    none_at_all (suc x) (suc y) e = absurd (ground arith)

    above :
        1 ≤ d
        → (if x == 0 || y == 0 then ok 0 else u512_to_u256 ((x * y + d - 1) / d)) ≡ ok n
        → x * y ≤ n * d
    above positive e = elim (Bool-cases (x == 0 || y == 0)) [
      | inl empty ↦ none_at_all x y empty
      | inr some_product ↦
          rw (narrowed ((x * y + d - 1) / d) n (ground arith)) (rounded (x * y) positive)
    ]

pub to_assets_down_ok :
    (x A S n : ℕ)
    → to_assets_down x A S ≡ ok n
    → n * (S + virtual_shares) ≤ x * (A + virtual_assets)
unfolding to_assets_down
to_assets_down_ok x A S n h =
    let (w1, e1, h1) = bind_ok (checked_add A virtual_assets) _ h in
    let (w2, e2, h2) = bind_ok (checked_add S virtual_shares) _ h1 in
    let (positive, bound) = mul_div_down_ok x w1 w2 n h2 in
    rw (← checked_add_ok A virtual_assets w1 e1, ← checked_add_ok S virtual_shares w2 e2) bound

pub to_assets_up_ok :
    (x A S n : ℕ) → to_assets_up x A S ≡ ok n → x * (A + virtual_assets) ≤ n * (S + virtual_shares)
unfolding to_assets_up
to_assets_up_ok x A S n h =
    let (w1, e1, h1) = bind_ok (checked_add A virtual_assets) _ h in
    let (w2, e2, h2) = bind_ok (checked_add S virtual_shares) _ h1 in
    let (positive, bound) = mul_div_up_ok x w1 w2 n h2 in
    rw (← checked_add_ok A virtual_assets w1 e1, ← checked_add_ok S virtual_shares w2 e2) bound

pub to_shares_down_ok :
    (x A S n : ℕ)
    → to_shares_down x A S ≡ ok n
    → n * (A + virtual_assets) ≤ x * (S + virtual_shares)
unfolding to_shares_down
to_shares_down_ok x A S n h =
    let (w1, e1, h1) = bind_ok (checked_add S virtual_shares) _ h in
    let (w2, e2, h2) = bind_ok (checked_add A virtual_assets) _ h1 in
    let (positive, bound) = mul_div_down_ok x w1 w2 n h2 in
    rw (← checked_add_ok S virtual_shares w1 e1, ← checked_add_ok A virtual_assets w2 e2) bound

pub to_shares_up_ok :
    (x A S n : ℕ) → to_shares_up x A S ≡ ok n → x * (S + virtual_shares) ≤ n * (A + virtual_assets)
unfolding to_shares_up
to_shares_up_ok x A S n h =
    let (w1, e1, h1) = bind_ok (checked_add S virtual_shares) _ h in
    let (w2, e2, h2) = bind_ok (checked_add A virtual_assets) _ h1 in
    let (positive, bound) = mul_div_up_ok x w1 w2 n h2 in
    rw (← checked_add_ok S virtual_shares w1 e1, ← checked_add_ok A virtual_assets w2 e2) bound

-- A deposit that is turned into shares and back is never more, and a debt that is turned into shares
-- and back is never less: rounding does not favour the holder of the position.
pub to_assets-to_shares :
    (assets A S s_down down s_up up : ℕ)
    → to_shares_down assets A S ≡ ok s_down
    → to_assets_down s_down A S ≡ ok down
    → to_shares_up assets A S ≡ ok s_up
    → to_assets_up s_up A S ≡ ok up
    → (down ≤ assets) × (assets ≤ up)
to_assets-to_shares assets A S s_down down s_up up h1 h2 h3 h4 = (
  le_of_mul-le-mul_right
      (through (down * (S + virtual_shares)) (s_down * (A + virtual_assets))
        (assets * (S + virtual_shares)) (to_assets_down_ok s_down A S down h2)
        (to_shares_down_ok assets A S s_down h1))
      (omega arith),
  le_of_mul-le-mul_right
      (through (assets * (S + virtual_shares)) (s_up * (A + virtual_assets))
        (up * (S + virtual_shares)) (to_shares_up_ok assets A S s_up h3)
        (to_assets_up_ok s_up A S up h4))
      (omega arith),
)
  where
    through : (a b c : ℕ) → a ≤ b → b ≤ c → a ≤ c
    through a b c p q = omega arith
