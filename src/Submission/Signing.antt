-- ===== src/Submission/Signing.antt =====
-- src/worker/mod.rs: what a submitted operation carries.
use agent_execution_platform.Prelude.{
  ℕ, ◌+◌, ◌<◌, ◌≡◌, refl, ◌∙◌, inl, inr, some, List, ltb, Bool-cases, arith,
}
use mathlib.Core.Path.{subst}
use agent_execution_platform.Prelude.Results.{Result, ok, ok_inj, Result-cases}
use agent_execution_platform.Types.{UserOperation}
use agent_execution_platform.Crates.{Hex, U256, Ethers, u64_bound, u64_max}
use agent_execution_platform.Relayer.Utils.{RelayError, with_0x}
use agent_execution_platform.Relayer.UserOp.{compute_user_op_hash, apply_signature}
use agent_execution_platform.Relayer.Hashes.{IsUserOpHash, compute_user_op_hash-IsUserOpHash}
use agent_execution_platform.Relayer.Sponsor.{PaymasterSigner, sign_paymaster_data}
use agent_execution_platform.Relayer.Sponsor.Layout.{
  IsSigner, IsSignedAt, sign_paymaster_data-IsSignedAt,
}
use agent_execution_platform.Submission.{Outside, sign_user_operation_for_submission}

module _ {C : Type 0} (hex : Hex) (u256 : U256) (eth : Ethers u256) (out : Outside C)
    (entry_point : List ℕ) where
  -- The operation with the paymaster's data and the agent's signature in it.
  abbrev complete : UserOperation → List ℕ → List ℕ → UserOperation
  complete op sponsorship signature = record op {
    paymaster_and_data = with_0x (hex.encode sponsorship);
    signature = with_0x (hex.encode signature);
  }

  -- The paymaster signs fields that the completion leaves alone.
  IsSignedAt-complete :
      (signer : PaymasterSigner) (now : ℕ) (op : UserOperation) (chain_id : ℕ)
      (signed sponsorship signature : List ℕ)
      → IsSignedAt hex u256 eth signer now op chain_id signed
      → IsSignedAt hex u256 eth signer now (complete op sponsorship signature) chain_id signed
  IsSignedAt-complete signer now op chain_id signed sponsorship signature s = record {
    paymaster = s.paymaster;
    verification = s.verification;
    post_op = s.post_op;
    valid_until = s.valid_until;
    valid_after = s.valid_after;
    signature = s.signature;
  }

  -- The agent's signature does not change what it signs.
  hash-complete :
      (op : UserOperation) (id : ℕ) (sponsorship signature : List ℕ)
      → compute_user_op_hash hex u256 eth entry_point (complete op sponsorship signature) id
        ≡ compute_user_op_hash hex u256 eth entry_point
            (record op { paymaster_and_data = with_0x (hex.encode sponsorship) })
            id
  unfolding compute_user_op_hash
  hash-complete op id sponsorship signature = refl

  -- An operation that is ready to be submitted: it carries paymaster data that are signed, at the
  -- given time, for this very operation, and the agent's signature of its own hash
  -- on the chain of the node.
  abbrev pub IsSubmittable : PaymasterSigner → C → ℕ → UserOperation → Type 0
  IsSubmittable signer c chain_id op =
      ((signed : List ℕ) × (op.paymaster_and_data ≡ with_0x (hex.encode signed))
        × IsSignedAt hex u256 eth signer (out.unix_time c) op chain_id signed)
      × ((id : ℕ) × (op_hash sig : List ℕ) × ((out.provider.get_chainid c).0 ≡ ok id)
          × IsUserOpHash hex u256 eth entry_point op id op_hash
          × (out.decrypt_and_sign op_hash ≡ ok sig)
          × (op.signature ≡ with_0x (hex.encode sig)))

  -- Nothing but these two fields differs.
  abbrev pub Keeps : UserOperation → UserOperation → Type 0
  Keeps op op' =
      record op' { paymaster_and_data = op.paymaster_and_data; signature = op.signature } ≡ op

  -- What comes out of the signing, for a signer that is well formed and a window that ends below
  -- 2 ^ 64, is the operation that went in, but for its paymaster data and its signature: the
  -- paymaster has signed its sender, nonce, codes, gas and fees, for a window around the present,
  -- and the agent has signed the entry point's hash of the same fields with those data, on the chain
  -- that the node reports.
  pub sign_user_operation_for_submission-IsSubmittable :
      (signer : PaymasterSigner) (chain_id : ℕ) (op : UserOperation) (c : C) (op' : UserOperation)
      → IsSigner signer
      → out.unix_time c + signer.validity_window_secs < u64_bound
      → (sign_user_operation_for_submission hex u256 eth out entry_point
          (some signer)
          chain_id
          op
          c).0
        ≡ ok op'
      → IsSubmittable signer c chain_id op' × Keeps op op'
  unfolding sign_user_operation_for_submission apply_signature
  sign_user_operation_for_submission-IsSubmittable signer chain_id op c op' fit small h =
      elim (Result-cases (sign_paymaster_data hex u256 eth signer (out.unix_time c) op chain_id)) [
        | inr (e, q1) ↦ absurd (ground arith)
        | inl (signed, q1) ↦ elim (Result-cases (out.provider.get_chainid c).0) [
          | inr (e, q2) ↦ absurd (ground arith)
          | inl (id, q2) ↦ elim (Bool-cases (ltb u64_max id)) [
            | inl big ↦ absurd (ground arith)
            | inr fits ↦
                elim (Result-cases (
                  compute_user_op_hash hex u256 eth entry_point
                    (record op { paymaster_and_data = with_0x (hex.encode signed) }) id)) [
                      | inr (e, q3) ↦ absurd (ground arith)
                      | inl (op_hash, q3) ↦ elim (Result-cases (out.decrypt_and_sign op_hash)) [
                        | inr (e, q4) ↦ absurd (ground arith)
                        | inl (sig, q4) ↦
                            let done = complete op signed sig in
                            let same : ◌≡◌ {A = Result RelayError UserOperation} (ok done)
                                (ok op') =
                              ground arith in
                            subst (λ o. IsSubmittable signer c chain_id o × Keeps op o)
                              (ok_inj done op' same)
                              (
                                (
                                  (
                                    signed,
                                    refl,
                                    IsSignedAt-complete signer (out.unix_time c) op chain_id signed
                                        signed sig
                                        (sign_paymaster_data-IsSignedAt hex u256 eth signer
                                          (out.unix_time c) op chain_id fit small q1),
                                  ),
                                  (
                                    id,
                                    op_hash,
                                    sig,
                                    q2,
                                    compute_user_op_hash-IsUserOpHash hex u256 eth entry_point
                                        (complete op signed sig) id op_hash
                                        (hash-complete op id signed sig ∙ q3),
                                    q4,
                                    refl,
                                  ),
                                ),
                                refl,
                              )
                      ]
                    ]
          ]
        ]
      ]
