-- ===== src/Wallets/Keys.antt =====
-- src/agent_wallet/mod.rs: the key of the registry, and the use of the agents' keys.
use agent_execution_platform.Prelude.{
  ℕ, ◌≡◌, refl, true, not, List, length, ◌==◌, some, arith, inl, inr,
}
use agent_execution_platform.Prelude.Text.{Text}
use agent_execution_platform.Prelude.Results.{
  Result, ok, or_err, map_err, fail_if, Result-cases, ◌>>=◌, ◌>>◌,
}
use agent_execution_platform.Wallets.{AgentWalletRow, AgentWallet}
use agent_execution_platform.Wallets.Ciphers.{
  is_utf8, encrypt_key_hex, decrypt_key_hex, decrypt_key_hex-encrypt_key_hex,
}
use agent_execution_platform.Wallets.Registry.{
  WalletError, cipher_failed, invalid_private_key, signing_failed, invalid_hex, wrong_key_length,
  AgentWalletRegistry, Store, compute_smart_wallet_address, fresh_row,
}

module _ {D N : Type 0} (reg : AgentWalletRegistry D N) where
  -- The registry with the key that the text stands for.
  unfoldable pub new : Text → Result WalletError (AgentWalletRegistry D N)
  new encryption_key_hex = do
    key_bytes ← or_err (reg.hex.decode encryption_key_hex) invalid_hex
    fail_if (not (length key_bytes == 32)) wrong_key_length
    ok (record reg { encryption_key = key_bytes })

  unfoldable pub decrypt_signing_key : Text → Result WalletError (List ℕ)
  decrypt_signing_key encrypted_b64 = do
    key_hex ← map_err cipher_failed (decrypt_key_hex reg.cipher reg.encryption_key encrypted_b64)
    or_err (reg.parse_key key_hex) invalid_private_key

  unfoldable pub decrypt_and_sign : AgentWallet → List ℕ → Result WalletError (List ℕ)
  decrypt_and_sign wallet hash = do
    signing_key ← decrypt_signing_key wallet.signing_key_encrypted
    or_err (reg.sign_hash signing_key hash) signing_failed

  -- What a fresh row holds: the key that was drawn, encrypted under a nonce that was drawn.
  fresh_parts :
      (api_key_id : ℕ) (agent_id name : Text) (w : Store D N) (r : AgentWalletRow) (f : AgentWallet)
      → (fresh_row reg api_key_id agent_id name w).0 ≡ ok (r, f)
      → let key = (reg.draws.new_key w.net).0 in
        (f.eoa_address ≡ reg.address_of_key key)
        × (r.signing_key_encrypted ≡ f.signing_key_encrypted)
        × ((n : N) × (encrypt_key_hex reg.cipher reg.encryption_key
                (reg.draws.new_nonce n).0
                (reg.hex.encode key)
              ≡ ok f.signing_key_encrypted))
  unfolding fresh_row
  fresh_parts api_key_id agent_id name w r f h =
      let (key, n1) = reg.draws.new_key w.net in
      let (reply, n2) = compute_smart_wallet_address reg (reg.address_of_key key) n1 in
      let nonce = (reg.draws.new_nonce n2).0 in
      elim (Result-cases reply) [
        | inr (e, q) ↦ absurd (ground arith)
        | inl (smart, q) ↦
            elim (Result-cases
              (encrypt_key_hex reg.cipher reg.encryption_key nonce (reg.hex.encode key))) [
                | inr (e, q2) ↦ absurd (ground arith)
                | inl (c, q2) ↦ (ground arith, ground arith, (n2, ground arith))
              ]
      ]

  key_read :
      (nonce key : List ℕ) (c : Text)
      → length nonce ≡ 12
      → is_utf8 (reg.hex.encode key) ≡ true
      → reg.parse_key (reg.hex.encode key) ≡ some key
      → encrypt_key_hex reg.cipher reg.encryption_key nonce (reg.hex.encode key) ≡ ok c
      → decrypt_signing_key c ≡ ok key
  unfolding decrypt_signing_key
  key_read nonce key c len digits parsed h =
      rw
        (
          decrypt_key_hex-encrypt_key_hex reg.cipher reg.encryption_key nonce (reg.hex.encode key) c
              len digits h,
          parsed,
        )
        refl

  -- The key that a fresh wallet signs with is the one of its address, and its row holds the same
  -- encrypted key, if nonces have twelve bytes, and the digits of a drawn key are UTF-8 and parse back
  -- to it.
  pub decrypt_and_sign-fresh_row :
      ((n : N) → length (reg.draws.new_nonce n).0 ≡ 12)
      → ((n : N) → is_utf8 (reg.hex.encode (reg.draws.new_key n).0) ≡ true)
      → ((n : N)
          → reg.parse_key (reg.hex.encode (reg.draws.new_key n).0) ≡ some (reg.draws.new_key n).0)
      → (api_key_id : ℕ) (agent_id name : Text) (w : Store D N) (r : AgentWalletRow)
        (f : AgentWallet)
      → (fresh_row reg api_key_id agent_id name w).0 ≡ ok (r, f)
      → (key : List ℕ) × (f.eoa_address ≡ reg.address_of_key key)
        × (r.signing_key_encrypted ≡ f.signing_key_encrypted)
        × ((hash : List ℕ)
            → decrypt_and_sign f hash ≡ or_err (reg.sign_hash key hash) signing_failed)
  unfolding decrypt_and_sign
  decrypt_and_sign-fresh_row nonces digits parsed api_key_id agent_id name w r f h =
      let (owner, same, (n, sealed)) = fresh_parts api_key_id agent_id name w r f h in
      let key = (reg.draws.new_key w.net).0 in
      let read =
        key_read (reg.draws.new_nonce n).0 key f.signing_key_encrypted (nonces n) (digits w.net)
          (parsed w.net) sealed in
      (key, owner, same, λ hash. rw read refl)
