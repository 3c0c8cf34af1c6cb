-- ===== src/Protocols/Balancer/Best.antt =====
-- src/protocols/balancer_v3/service.rs: which of two quotes is kept, and the best of a list of them.
use mathlib.Core.Path.{subst}
use mathlib.Core.Option.{some-injective}
use agent_execution_platform.Prelude.{
  ℕ, ◌≤◌, ◌≡◌, refl, sym, ap, ◌∙◌, ◌⊎◌, inl, inr, Bool, false, ◌&&◌, ◌||◌, Option, none, some, List,
  [], ◌∷◌, All, ltb, ◌==◌, if◌then◌else◌, arith, Bool-cases, suc,
}
use agent_execution_platform.Protocols.Balancer.{BalancerSwapKind, exact_in, exact_out}
use agent_execution_platform.Protocols.Calldata.{entry}

-- A pool and its quote.
abbrev pub Quote : Type 0
Quote = List ℕ × ℕ

-- Addresses are compared byte by byte.
abbrev pub address_below : List ℕ → List ℕ → Bool
address_below [] b = false
address_below (x ∷ a) [] = false
address_below (x ∷ a) (y ∷ b) = ltb x y || (x == y && address_below a b)

-- Whether an amount is more for the agent than another: what it gets, or what it pays.
abbrev pub is_more : BalancerSwapKind → ℕ → ℕ → Bool
is_more exact_in amount best = ltb best amount
is_more exact_out amount best = ltb amount best

abbrev pub keep : BalancerSwapKind → Option Quote → Quote → Option Quote
keep kind none q = some q
keep kind (some (best_pool, best_amount)) (pool, amount) =
    if is_more kind amount best_amount || (amount == best_amount && address_below pool best_pool)
    then some (pool, amount)
    else some (best_pool, best_amount)

abbrev pub keep_found : BalancerSwapKind → Option Quote → Option Quote → Option Quote
keep_found kind best none = best
keep_found kind best (some q) = keep kind best q

abbrev pub best_of : BalancerSwapKind → Option Quote → List Quote → Option Quote
best_of kind best [] = best
best_of kind best (q ∷ qs) = best_of kind (keep kind best q) qs

-- The agent does not do better with the second amount.
abbrev pub IsAtLeast : BalancerSwapKind → ℕ → ℕ → Type 0
IsAtLeast exact_in a b = b ≤ a
IsAtLeast exact_out a b = a ≤ b

-- One of the quotes, and none is better.
abbrev pub IsBest : BalancerSwapKind → Quote → List Quote → Type 0
IsBest kind q qs = ((n : ℕ) × (entry n qs ≡ some q)) × All (λ p. IsAtLeast kind q.1 p.1) qs

IsAtLeast-refl : (kind : BalancerSwapKind) (a : ℕ) → IsAtLeast kind a a
IsAtLeast-refl exact_in a = omega arith
IsAtLeast-refl exact_out a = omega arith

IsAtLeast-trans :
    (kind : BalancerSwapKind) (a b c : ℕ)
    → IsAtLeast kind a b
    → IsAtLeast kind b c
    → IsAtLeast kind a c
IsAtLeast-trans exact_in a b c h k = omega arith
IsAtLeast-trans exact_out a b c h k = omega arith

-- What is kept is one of the two, and at least as good as both.
keep_lem :
    (kind : BalancerSwapKind) (best q : Quote)
    → (r : Quote) × (keep kind (some best) q ≡ some r)
      × ((r ≡ best) ⊎ (r ≡ q))
      × (IsAtLeast kind r.1 best.1)
      × (IsAtLeast kind r.1 q.1)
keep_lem exact_in (best_pool, best) (pool, amount) =
    elim (Bool-cases (ltb best amount || (amount == best && address_below pool best_pool))) [
      | inl e ↦ ((pool, amount), rw e refl, inr refl, ground arith, omega arith)
      | inr e ↦ ((best_pool, best), rw e refl, inl refl, omega arith, ground arith)
    ]
keep_lem exact_out (best_pool, best) (pool, amount) =
    elim (Bool-cases (ltb amount best || (amount == best && address_below pool best_pool))) [
      | inl e ↦ ((pool, amount), rw e refl, inr refl, ground arith, omega arith)
      | inr e ↦ ((best_pool, best), rw e refl, inl refl, omega arith, ground arith)
    ]

best_of_lem :
    (kind : BalancerSwapKind) (best : Quote) (qs : List Quote)
    → (r : Quote) × (best_of kind (some best) qs ≡ some r)
      × ((r ≡ best) ⊎ ((n : ℕ) × (entry n qs ≡ some r)))
      × (IsAtLeast kind r.1 best.1)
      × (All (λ p. IsAtLeast kind r.1 p.1) qs)
best_of_lem kind best [] = (best, refl, inl refl, IsAtLeast-refl kind best.1, tt)
best_of_lem kind best (q ∷ qs) =
    let (k, e, which, over_best, over_q) = keep_lem kind best q in
    let (r, e2, where_, over_k, over_all) = best_of_lem kind k qs in
    (
      r,
      rw e e2,
      elim where_ [
        | inr (n, at) ↦ inr (suc n, at)
        | inl same ↦ elim which [
          | inl old ↦ inl (same ∙ old)
          | inr new ↦ inr (0, ap some (sym (same ∙ new)))
        ]
      ],
      IsAtLeast-trans kind r.1 k.1 best.1 over_k over_best,
      (IsAtLeast-trans kind r.1 k.1 q.1 over_k over_q, over_all),
    )

place_of :
    (r p : Quote) (qs : List Quote)
    → (r ≡ p) ⊎ ((n : ℕ) × (entry n qs ≡ some r))
    → (n : ℕ) × (entry n (p ∷ qs) ≡ some r)
place_of r p qs h = elim h [ inl first ↦ (0, ap some (sym first)) | inr (n, at) ↦ (suc n, at) ]

-- Some quote is chosen where there is one, and it is the best of them.
pub best_of-IsBest :
    (kind : BalancerSwapKind) (qs : List Quote) (q : Quote)
    → best_of kind none qs ≡ some q
    → IsBest kind q qs
best_of-IsBest kind [] q h = absurd (ground arith)
best_of-IsBest kind (p ∷ qs) q h =
    let (r, e, where_, over_p, over_all) = best_of_lem kind p qs in
    subst (λ x. IsBest kind x (p ∷ qs)) (some-injective r q (sym e ∙ h))
      (place_of r p qs where_, (over_p, over_all))
