-- ===== src/Wallets/Rows.antt =====
-- src/agent_wallet/mod.rs: the table of the wallets, by the names of its rows.
use agent_execution_platform.Prelude.{
  ◌≡◌, refl, ap, inl, inr, none, some, List, arith, Option-cases, true, Bool-cases,
}
use agent_execution_platform.Prelude.Text.{Text, text_eq, text_eq_iff}
use agent_execution_platform.Prelude.Results.{Result, ok, err}
use agent_execution_platform.Wallets.{AgentWalletRow, AgentWallet, row_of, inserted}
use agent_execution_platform.Wallets.Registry.{WalletError, AgentWalletRegistry, Store, wallet_of}

-- Every row of the one table is in the other under its name.
abbrev pub Kept : List AgentWalletRow → List AgentWalletRow → Type 0
Kept before after =
    (name : Text) (r : AgentWalletRow) → row_of before name ≡ some r → row_of after name ≡ some r

-- A new row is put in front only where its name has no row.
pub inserted-Kept :
    (r : AgentWalletRow) (rs : List AgentWalletRow)
    → Kept rs (inserted (row_of rs r.namespaced_id) r rs)
inserted-Kept r rs name old h = elim (Option-cases (row_of rs r.namespaced_id)) [
  | inr (there, e) ↦ rw e h
  | inl e ↦ elim (Bool-cases (text_eq r.namespaced_id name)) [
    | inr other ↦ rw (e, other) h
    | inl same ↦ absurd (clash ((text_eq_iff r.namespaced_id name).0 same) e)
  ]
]
  where
    clash : r.namespaced_id ≡ name → row_of rs r.namespaced_id ≡ none → ⊥
    clash same e = ground (arith, ap (row_of rs) same)

text_eq_refl : (s : Text) → text_eq s s ≡ true
text_eq_refl s = (text_eq_iff s s).1 refl

-- After the insert the name has a row.
pub row_of-inserted :
    (r : AgentWalletRow) (rs : List AgentWalletRow)
    → (found : AgentWalletRow) × (row_of (inserted (row_of rs r.namespaced_id) r rs) r.namespaced_id
        ≡ some found)
row_of-inserted r rs = elim (Option-cases (row_of rs r.namespaced_id)) [
  | inr (there, e) ↦ (there, rw e e)
  | inl e ↦ (r, rw (e, text_eq_refl r.namespaced_id) refl)
]

module _ {D N : Type 0} (reg : AgentWalletRegistry D N) where
  -- The rows that the database holds.
  abbrev pub rows : Store D N → List AgentWalletRow
  rows w = reg.db_pool.view w.db

  -- The wallet that is answered is read from the row under the agent's name.
  abbrev pub Held : Text → Result WalletError AgentWallet → List AgentWalletRow → Type 0
  Held name (ok wallet) rs =
      (r : AgentWalletRow) × (row_of rs name ≡ some r) × (wallet_of reg r ≡ ok wallet)
  Held name (err e) rs = Unit
