-- ===== src/Wallets/Lookup.antt =====
-- src/agent_wallet/mod.rs: what `load_wallet` finds.
use agent_execution_platform.Prelude.{
  ◌≡◌, refl, sym, inl, inr, Option, none, some, arith, Option-cases,
}
use agent_execution_platform.Prelude.Text.{Text}
use agent_execution_platform.Prelude.Results.{ok, Result-cases}
use agent_execution_platform.Service.{call_inv, call_answered}
use agent_execution_platform.Wallets.{
  AgentWalletRow, AgentWallet, select_wallet, Answer, row, row_of,
}
use agent_execution_platform.Wallets.Registry.{
  execute, AgentWalletRegistry, Store, wallet_of, loaded, load_wallet,
}
use agent_execution_platform.Wallets.Rows.{Held, rows}

module _ {D N : Type 0} (reg : AgentWalletRegistry D N) where
  pub load_keeps : (name : Text) (w : Store D N) → rows reg (load_wallet reg name w).1 ≡ rows reg w
  unfolding load_wallet execute
  load_keeps name w =
      let kept =
        call_inv reg.db_pool (λ v. v ≡ reg.db_pool.view w.db) (select_wallet name) w.db refl refl in
      elim (Option-cases (reg.db_pool.call (select_wallet name) w.db).0) [
        | inl e ↦ ground (arith, kept)
        | inr (a, e) ↦ ground (arith, kept)
      ]

  load_finds :
      (name : Text) (w : Store D N) (found : Option AgentWallet)
      → (load_wallet reg name w).0 ≡ ok found
      → (a : Answer) × (a ≡ row (row_of (rows reg w) name)) × (loaded reg a ≡ ok found)
  unfolding load_wallet execute
  load_finds name w found h = elim (Option-cases (reg.db_pool.call (select_wallet name) w.db).0) [
    | inl e ↦ absurd (ground arith)
    | inr (a, e) ↦
        let (same, moved) = call_answered reg.db_pool (select_wallet name) w.db e in
        (a, sym same, ground arith)
  ]

  row_in :
      (o : Option AgentWalletRow) (found : Option AgentWallet)
      → loaded reg (row o) ≡ ok found
      → (wallet : AgentWallet) → found ≡ some wallet
      → (r : AgentWalletRow) × (o ≡ some r) × (wallet_of reg r ≡ ok wallet)
  row_in none found h wallet e = absurd (ground arith)
  row_in (some r) found h wallet e = elim (Result-cases (wallet_of reg r)) [
    | inr (x, q) ↦ absurd (ground arith)
    | inl (v, q) ↦ (r, refl, ground arith)
  ]

  -- A row that is there is found.
  no_row_in : (o : Option AgentWalletRow) → loaded reg (row o) ≡ ok none → o ≡ none
  no_row_in none h = refl
  no_row_in (some r) h = elim (Result-cases (wallet_of reg r)) [
    | inr (x, q) ↦ absurd (ground arith)
    | inl (v, q) ↦ absurd (ground arith)
  ]

  -- A wallet that is found is that of the row under the name.
  pub load-Held :
      (name : Text) (w : Store D N) (wallet : AgentWallet)
      → (load_wallet reg name w).0 ≡ ok (some wallet)
      → Held reg name (ok wallet) (rows reg (load_wallet reg name w).1)
  load-Held name w wallet h =
      let (a, q, l) = load_finds name w (some wallet) h in
      rw (load_keeps name w)
        (row_in (row_of (rows reg w) name) (some wallet) (rw (← q) l) wallet refl)

  pub load_none :
      (name : Text) (w : Store D N)
      → (load_wallet reg name w).0 ≡ ok none
      → row_of (rows reg w) name ≡ none
  load_none name w h =
      let (a, q, l) = load_finds name w none h in no_row_in (row_of (rows reg w) name) (rw (← q) l)
