-- ===== src/Wallets/Canonical.antt =====
-- src/agent_wallet/mod.rs: an agent has one wallet, the first that was stored for it.
use mathlib.Core.Path.{subst, subst⁻¹}
use mathlib.Core.Option.{some-injective}
use agent_execution_platform.Prelude.{ℕ, ◌≡◌, sym, ◌∙◌, ap, inl, inr, Option, none, some, arith}
use agent_execution_platform.Prelude.Text.{Text}
use agent_execution_platform.Prelude.Results.{Result, ok, err, ok_inj, Result-cases}
use agent_execution_platform.Wallets.{AgentWalletRow, AgentWallet, row_of, namespaced}
use agent_execution_platform.Wallets.Ciphers.{encrypt_key_hex}
use agent_execution_platform.Wallets.Registry.{
  WalletError, AgentWalletRegistry, Store, wallet_of, load_wallet, compute_smart_wallet_address,
  fresh_row, store_row, provision_wallet, get_or_create,
}
use agent_execution_platform.Wallets.Rows.{Kept, Held, rows}
use agent_execution_platform.Wallets.Lookup.{load_keeps, load-Held}
use agent_execution_platform.Wallets.Stored.{store_keeps, store_row-Held}

module _ {D N : Type 0} (reg : AgentWalletRegistry D N) where
  -- The draws and the call leave the database alone, and the row has the name.
  fresh_row_lem :
      (api_key_id : ℕ) (agent_id name : Text) (w : Store D N)
      → let answer = fresh_row reg api_key_id agent_id name w in
        (answer.1.db ≡ w.db)
        × ((r : AgentWalletRow) (f : AgentWallet) → answer.0 ≡ ok (r, f) → r.namespaced_id ≡ name)
  unfolding fresh_row
  fresh_row_lem api_key_id agent_id name w =
      let (key, n1) = reg.draws.new_key w.net in
      let (reply, n2) = compute_smart_wallet_address reg (reg.address_of_key key) n1 in
      let (nonce, n3) = reg.draws.new_nonce n2 in
      elim (Result-cases reply) [
        | inr (e, q) ↦ (ground arith, λ r f h. absurd (ground arith))
        | inl (smart, q) ↦
            elim (Result-cases
              (encrypt_key_hex reg.cipher reg.encryption_key nonce (reg.hex.encode key))) [
                | inr (e, q2) ↦ (ground arith, λ r f h. absurd (ground arith))
                | inl (c, q2) ↦ (ground arith, λ r f h. ground arith)
              ]
      ]

  -- The answer is the wallet of a row that the table has in the end, and no row was lost.
  abbrev Settled : Text → Store D N → Result WalletError AgentWallet × Store D N → Type 0
  Settled name w answer =
      Held reg name answer.0 (rows reg answer.1) × Kept (rows reg w) (rows reg answer.1)

  provision_fails :
      (api_key_id : ℕ) (agent_id name : Text) (w : Store D N) (x : WalletError)
      → (fresh_row reg api_key_id agent_id name w).0 ≡ err x
      → provision_wallet reg api_key_id agent_id name w
        ≡ (err x, (fresh_row reg api_key_id agent_id name w).1)
  unfolding provision_wallet fresh_row
  provision_fails api_key_id agent_id name w x e = ground arith

  provision_then :
      (api_key_id : ℕ) (agent_id name : Text) (w : Store D N) (r : AgentWalletRow) (f : AgentWallet)
      → (fresh_row reg api_key_id agent_id name w).0 ≡ ok (r, f)
      → provision_wallet reg api_key_id agent_id name w
        ≡ store_row reg r f (fresh_row reg api_key_id agent_id name w).1
  unfolding provision_wallet fresh_row store_row
  provision_then api_key_id agent_id name w r f e = ground arith

  store_row-Settled :
      (r : AgentWalletRow) (f : AgentWallet) (name : Text) (w w1 : Store D N)
      → w1.db ≡ w.db
      → r.namespaced_id ≡ name
      → Settled name w (store_row reg r f w1)
  store_row-Settled r f name w w1 db_same named = (
    rw (← named) (store_row-Held reg r f w1),
    λ other old h. store_keeps reg r f w1 other old (rw db_same h),
  )

  provision_wallet-Settled :
      (api_key_id : ℕ) (agent_id name : Text) (w : Store D N)
      → Settled name w (provision_wallet reg api_key_id agent_id name w)
  provision_wallet-Settled api_key_id agent_id name w =
      let (db_same, named) = fresh_row_lem api_key_id agent_id name w in
      let w1 = (fresh_row reg api_key_id agent_id name w).1 in
      elim (Result-cases (fresh_row reg api_key_id agent_id name w).0) [
        | inr (x, e) ↦ rw (provision_fails api_key_id agent_id name w x e) (
          tt,
          λ other old h. subst⁻¹ (λ d. row_of (reg.db_pool.view d) other ≡ some old) db_same h,
        )
        | inl ((r, f), e) ↦
            rw (provision_then api_key_id agent_id name w r f e)
              (store_row-Settled r f name w w1 db_same (named r f e))
      ]

  abbrev name_of : ℕ → Text → Text
  name_of api_key_id agent_id = namespaced reg.uuid_text api_key_id agent_id

  created_fails :
      (api_key_id : ℕ) (agent_id : Text) (w : Store D N) (x : WalletError)
      → (load_wallet reg (name_of api_key_id agent_id) w).0 ≡ err x
      → get_or_create reg api_key_id agent_id w
        ≡ (err x, (load_wallet reg (name_of api_key_id agent_id) w).1)
  unfolding get_or_create load_wallet
  created_fails api_key_id agent_id w x e = ground arith

  created_finds :
      (api_key_id : ℕ) (agent_id : Text) (w : Store D N) (v : AgentWallet)
      → (load_wallet reg (name_of api_key_id agent_id) w).0 ≡ ok (some v)
      → get_or_create reg api_key_id agent_id w
        ≡ (ok v, (load_wallet reg (name_of api_key_id agent_id) w).1)
  unfolding get_or_create load_wallet
  created_finds api_key_id agent_id w v e = ground arith

  created_anew :
      (api_key_id : ℕ) (agent_id : Text) (w : Store D N)
      → (load_wallet reg (name_of api_key_id agent_id) w).0 ≡ ok none
      → get_or_create reg api_key_id agent_id w
        ≡ provision_wallet reg api_key_id agent_id
            (name_of api_key_id agent_id)
            (load_wallet reg (name_of api_key_id agent_id) w).1
  unfolding get_or_create load_wallet provision_wallet
  created_anew api_key_id agent_id w e = ground arith

  -- The wallet that is answered is that of the row under the agent's name, and every row stays.
  get_or_create-Settled :
      (api_key_id : ℕ) (agent_id : Text) (w : Store D N)
      → Settled (name_of api_key_id agent_id) w (get_or_create reg api_key_id agent_id w)
  get_or_create-Settled api_key_id agent_id w =
      let name = name_of api_key_id agent_id in
      let w1 = (load_wallet reg name w).1 in
      let same = load_keeps reg name w in
      elim (Result-cases (load_wallet reg name w).0) [
        | inr (x, e) ↦ rw (created_fails api_key_id agent_id w x e) (tt, λ other old h. rw same h)
        | inl (none, e) ↦
            let (held, kept) = provision_wallet-Settled api_key_id agent_id name w1 in
            rw (created_anew api_key_id agent_id w e)
              (held, λ other old h. kept other old (rw same h))
        | inl (some v, e) ↦
            rw (created_finds api_key_id agent_id w v e)
              (load-Held reg name w v e, λ other old h. rw same h)
      ]

  one_row :
      {o : Option AgentWalletRow} (r r2 : AgentWalletRow) (v v2 : AgentWallet)
      → o ≡ some r
      → o ≡ some r2
      → wallet_of reg r ≡ ok v
      → wallet_of reg r2 ≡ ok v2
      → v2 ≡ v
  one_row r r2 v v2 there there2 read read2 =
      let same = some-injective r2 r (sym there2 ∙ there) in
      ok_inj v2 v (sym read2 ∙ ap (wallet_of reg) same ∙ read)

  -- An agent that was answered a wallet is answered the same one by every later request that is
  -- answered, as long as every row of the table is still there under its name.
  pub get_or_create_stable :
      (api_key_id : ℕ) (agent_id : Text) (w w2 : Store D N) (v v2 : AgentWallet)
      → (get_or_create reg api_key_id agent_id w).0 ≡ ok v
      → Kept (rows reg (get_or_create reg api_key_id agent_id w).1) (rows reg w2)
      → (get_or_create reg api_key_id agent_id w2).0 ≡ ok v2
      → v2 ≡ v
  get_or_create_stable api_key_id agent_id w w2 v v2 h kept h2 =
      let name = name_of api_key_id agent_id in
      let (r, there, read) =
        subst (λ a. Held reg name a (rows reg (get_or_create reg api_key_id agent_id w).1)) h
          (get_or_create-Settled api_key_id agent_id w).0 in
      let (held2, kept2) = get_or_create-Settled api_key_id agent_id w2 in
      let (r2, there2, read2) =
        subst (λ a. Held reg name a (rows reg (get_or_create reg api_key_id agent_id w2).1)) h2
          held2 in
      let still = kept2 name r (kept name r there) in one_row r r2 v v2 still there2 read read2
