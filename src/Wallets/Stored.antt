-- ===== src/Wallets/Stored.antt =====
-- src/agent_wallet/mod.rs: the insert and the search after it.
use agent_execution_platform.Prelude.{
  ◌≡◌, refl, ap, inl, inr, Option, none, some, arith, Option-cases,
}
use agent_execution_platform.Prelude.Results.{Result, ok, err, Result-cases}
use agent_execution_platform.Service.{call_inv, call_answered}
use agent_execution_platform.Wallets.{AgentWalletRow, AgentWallet, insert_wallet, Answer, row_of}
use agent_execution_platform.Wallets.Registry.{
  WalletError, AgentWalletRegistry, Store, execute, load_wallet, or_fresh, store_row,
}
use agent_execution_platform.Wallets.Rows.{Kept, inserted-Kept, row_of-inserted, Held, rows}
use agent_execution_platform.Wallets.Lookup.{load_keeps, load-Held, load_none}

module _ {D N : Type 0} (reg : AgentWalletRegistry D N) where
  insert_keeps :
      (r : AgentWalletRow) (w : Store D N)
      → Kept (rows reg w) (rows reg (execute reg (insert_wallet r) w).1)
  unfolding execute
  insert_keeps r w name old h =
      call_inv reg.db_pool (λ v. row_of v name ≡ some old) (insert_wallet r) w.db h
        (inserted-Kept r (rows reg w) name old h)

  pub store_keeps :
      (r : AgentWalletRow) (f : AgentWallet) (w : Store D N)
      → Kept (rows reg w) (rows reg (store_row reg r f w).1)
  unfolding store_row execute load_wallet
  store_keeps r f w name old h =
      let kept = insert_keeps r w name old h in
      let same = load_keeps reg r.namespaced_id (execute reg (insert_wallet r) w).1 in
      elim (Option-cases (reg.db_pool.call (insert_wallet r) w.db).0) [
        | inl e ↦ ground (arith, kept)
        | inr (a, e) ↦
            elim (Result-cases
              (load_wallet reg r.namespaced_id (execute reg (insert_wallet r) w).1).0) [
                | inl (found, q) ↦ ground (arith, kept, ap (λ v. row_of v name) same)
                | inr (x, q) ↦ ground (arith, kept, ap (λ v. row_of v name) same)
              ]
      ]

  -- An answered insert leaves a row under the name.
  insert_has_row :
      (r : AgentWalletRow) (w : Store D N) (a : Answer)
      → (execute reg (insert_wallet r) w).0 ≡ ok a
      → (found : AgentWalletRow) × (row_of
            (rows reg (execute reg (insert_wallet r) w).1)
            r.namespaced_id
          ≡ some found)
  unfolding execute
  insert_has_row r w a h = elim (Option-cases (reg.db_pool.call (insert_wallet r) w.db).0) [
    | inl e ↦ absurd (ground arith)
    | inr (b, e) ↦
        let (same, moved) = call_answered reg.db_pool (insert_wallet r) w.db e in
        let (found, there) = row_of-inserted r (rows reg w) in
        (found, ground (arith, there, ap (λ v. row_of v r.namespaced_id) moved))
  ]

  -- After an answered insert the search finds a wallet.
  found_after_insert :
      (r : AgentWalletRow) (w : Store D N) (a : Answer) (found : Option AgentWallet)
      → (execute reg (insert_wallet r) w).0 ≡ ok a
      → (load_wallet reg r.namespaced_id (execute reg (insert_wallet r) w).1).0 ≡ ok found
      → (wallet : AgentWallet) × (found ≡ some wallet)
  found_after_insert r w a (some v) e h = (v, refl)
  found_after_insert r w a none e h =
      let (old, there) = insert_has_row r w a e in
      let absent = load_none reg r.namespaced_id (execute reg (insert_wallet r) w).1 h in
      absurd (ground (arith, there, absent))

  abbrev after :
      AgentWallet
      → Result WalletError (Option AgentWallet) × Store D N
      → Result WalletError AgentWallet × Store D N
  after f (ok found, w) = (ok (or_fresh f found), w)
  after f (err x, w) = (err x, w)

  store_fails :
      (r : AgentWalletRow) (f : AgentWallet) (w : Store D N) (x : WalletError)
      → (execute reg (insert_wallet r) w).0 ≡ err x
      → (store_row reg r f w).0 ≡ err x
  unfolding store_row execute
  store_fails r f w x e = ground arith

  store_then :
      (r : AgentWalletRow) (f : AgentWallet) (w : Store D N) (a : Answer)
      → (execute reg (insert_wallet r) w).0 ≡ ok a
      → store_row reg r f w
        ≡ after f (load_wallet reg r.namespaced_id (execute reg (insert_wallet r) w).1)
  unfolding store_row execute load_wallet
  store_then r f w a e =
      elim (Result-cases (load_wallet reg r.namespaced_id (execute reg (insert_wallet r) w).1).0) [
        | inr (x, e2) ↦ ground arith
        | inl (found, e2) ↦ ground arith
      ]

  -- A stored wallet is what the search after the insert finds.
  store_ok :
      (r : AgentWalletRow) (f : AgentWallet) (w : Store D N) (v : AgentWallet)
      → (store_row reg r f w).0 ≡ ok v
      → let w1 = (execute reg (insert_wallet r) w).1 in
        ((load_wallet reg r.namespaced_id w1).0 ≡ ok (some v))
        × ((store_row reg r f w).1 ≡ (load_wallet reg r.namespaced_id w1).1)
  store_ok r f w v h = elim (Result-cases (execute reg (insert_wallet r) w).0) [
    | inr (x, e) ↦ absurd (ground (arith, h, store_fails r f w x e))
    | inl (a, e) ↦
        let w1 = (execute reg (insert_wallet r) w).1 in
        let q = store_then r f w a e in
        elim (Result-cases (load_wallet reg r.namespaced_id w1).0) [
          | inr (x, e2) ↦ absurd (ground (arith, h, q))
          | inl (found, e2) ↦
              let (old, e3) = found_after_insert r w a found e e2 in ground (arith, h, q)
        ]
  ]

  -- The wallet is that of the row under the name, which may be one that was there before.
  pub store_row-Held :
      (r : AgentWalletRow) (f : AgentWallet) (w : Store D N)
      → Held reg r.namespaced_id (store_row reg r f w).0 (rows reg (store_row reg r f w).1)
  store_row-Held r f w = elim (Result-cases (store_row reg r f w).0) [
    | inr (x, e) ↦ rw e tt
    | inl (v, e) ↦
        let (found, same) = store_ok r f w v e in
        rw (e, same) (load-Held reg r.namespaced_id (execute reg (insert_wallet r) w).1 v found)
  ]
