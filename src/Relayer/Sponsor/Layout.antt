-- ===== src/Relayer/Sponsor/Layout.antt =====
-- src/relayer/paymaster/mod.rs: the layout of the signed data, as the contract and the bundler read it.
use agent_execution_platform.Prelude.{
  ℕ, zero, suc, ◌+◌, ◌-◌, ◌%◌, ◌<◌, ◌≡◌, sym, ap, ◌∙◌, List, [], ◌∷◌, ◌++◌, All, length, take, drop,
  append_assoc, arith,
}
use agent_execution_platform.Prelude.Results.{ok, bind_ok, ok_inj}
use agent_execution_platform.Types.{UserOperation}
use agent_execution_platform.Crates.{Hex, U256, Ethers, uint, IsByte, u64_bound, u128_bound}
use agent_execution_platform.Relayer.Utils.{read_uint128}
use agent_execution_platform.Relayer.Utils.Packing.{take_prefix, low_half-length, read_uint128_low}
use agent_execution_platform.Relayer.Hashes.{
  IsPaymasterHash, compute_paymaster_hash-IsPaymasterHash,
}
use mathlib.Core.Path.{subst}
use native.Mathlib.Nat.{mod-eq_of_lt}
use agent_execution_platform.Relayer.Sponsor.{
  PaymasterSigner, compute_paymaster_hash, sign_paymaster_data, clock_skew_grace_secs,
}

-- What lies behind a prefix of known length.
drop_past : (k m : ℕ) (xs ys : List ℕ) → k ≡ length xs + m → drop k (xs ++ ys) ≡ drop m ys
drop_past k m [] ys e = ap (λ k. drop k ys) (omega arith)
drop_past zero m (x ∷ xs) ys e = absurd (omega arith)
drop_past (suc k) m (x ∷ xs) ys e = drop_past k m xs ys (omega arith)

regroup : (a v p u f s : List ℕ) → a ++ v ++ p ++ (u ++ f) ++ s ≡ a ++ (v ++ (p ++ (u ++ (f ++ s))))
regroup a v p u f s = simp append_assoc

-- The pieces of the signed data, and where each of them begins.
module _ (a v p u f s : List ℕ) (a_len : length a ≡ 20) (v_len : length v ≡ 16)
    (p_len : length p ≡ 16) (u_len : length u ≡ 32) (f_len : length f ≡ 32) where
  from_20 : drop 20 (a ++ (v ++ (p ++ (u ++ (f ++ s))))) ≡ v ++ (p ++ (u ++ (f ++ s)))
  from_20 = drop_past 20 0 a (v ++ (p ++ (u ++ (f ++ s)))) (omega arith)

  from_36 : drop 36 (a ++ (v ++ (p ++ (u ++ (f ++ s))))) ≡ p ++ (u ++ (f ++ s))
  from_36 =
      drop_past 36 16 a (v ++ (p ++ (u ++ (f ++ s)))) (omega arith)
      ∙ drop_past 16 0 v (p ++ (u ++ (f ++ s))) (omega arith)

  from_52 : drop 52 (a ++ (v ++ (p ++ (u ++ (f ++ s))))) ≡ u ++ (f ++ s)
  from_52 =
      drop_past 52 32 a (v ++ (p ++ (u ++ (f ++ s)))) (omega arith)
      ∙ drop_past 32 16 v (p ++ (u ++ (f ++ s))) (omega arith)
      ∙ drop_past 16 0 p (u ++ (f ++ s)) (omega arith)

  from_84 : drop 84 (a ++ (v ++ (p ++ (u ++ (f ++ s))))) ≡ f ++ s
  from_84 =
      drop_past 84 64 a (v ++ (p ++ (u ++ (f ++ s)))) (omega arith)
      ∙ drop_past 64 48 v (p ++ (u ++ (f ++ s))) (omega arith)
      ∙ drop_past 48 32 p (u ++ (f ++ s)) (omega arith)
      ∙ drop_past 32 0 u (f ++ s) (omega arith)

  from_116 : drop 116 (a ++ (v ++ (p ++ (u ++ (f ++ s))))) ≡ s
  from_116 =
      drop_past 116 96 a (v ++ (p ++ (u ++ (f ++ s)))) (omega arith)
      ∙ drop_past 96 80 v (p ++ (u ++ (f ++ s))) (omega arith)
      ∙ drop_past 80 64 p (u ++ (f ++ s)) (omega arith)
      ∙ drop_past 64 32 u (f ++ s) (omega arith)
      ∙ drop_past 32 0 f (s) (omega arith)

-- A signer as the configuration makes it: an address of 20 bytes and limits that fit in 128 bits.
pub record IsSigner (signer : PaymasterSigner) : Type 0 where
  pub address_len : length signer.paymaster_address ≡ 20
  pub address_bytes : All IsByte signer.paymaster_address
  pub verification_fits : signer.pm_verification_gas_limit < u128_bound
  pub post_op_fits : signer.pm_post_op_gas_limit < u128_bound

module _ (hex : Hex) (u256 : U256) (eth : Ethers u256) where
  -- What the contract reads in data that was signed at `now`: the paymaster and its gas limits, a
  -- window that begins 30 seconds before `now` and ends `validity_window_secs` after it, and, last,
  -- the signer's signature of the operation's hash for that window.
  pub record IsSignedAt (signer : PaymasterSigner) (now : ℕ) (op : UserOperation) (chain_id : ℕ)
      (signed : List ℕ) : Type 0 where
    pub paymaster : take 20 signed ≡ signer.paymaster_address
    pub verification :
        read_uint128 u256 (take 16 (drop 20 signed)) ≡ signer.pm_verification_gas_limit
    pub post_op : read_uint128 u256 (take 16 (drop 36 signed)) ≡ signer.pm_post_op_gas_limit
    pub valid_until :
        u256.from_big_endian (take 32 (drop 52 signed)) ≡ now + signer.validity_window_secs
    pub valid_after : u256.from_big_endian (take 32 (drop 84 signed)) ≡ now - clock_skew_grace_secs
    pub signature :
        (hash : List ℕ) × IsPaymasterHash hex u256 eth signer op chain_id
          (now + signer.validity_window_secs)
          (now - clock_skew_grace_secs)
          hash
        × (signer.signing_key hash ≡ ok (drop 116 signed))

  -- The parts that the signing puts together, for a window that ends at `until`.
  abbrev Parts : PaymasterSigner → ℕ → UserOperation → ℕ → List ℕ → ℕ → Type 0
  Parts signer now op chain_id signed until =
      (hash sig : List ℕ) × (compute_paymaster_hash hex u256 eth signer op chain_id until
          (now - clock_skew_grace_secs)
        ≡ ok hash)
      × (signer.signing_key hash ≡ ok sig)
      × (signed
          ≡ signer.paymaster_address
            ++ drop 16 (u256.to_big_endian signer.pm_verification_gas_limit)
            ++ drop 16 (u256.to_big_endian signer.pm_post_op_gas_limit)
            ++ eth.encode_tokens (uint until ∷ uint (now - clock_skew_grace_secs) ∷ [])
            ++ sig)

  signed-Parts :
      (signer : PaymasterSigner) (now : ℕ) (op : UserOperation) (chain_id : ℕ) {signed : List ℕ}
      → now + signer.validity_window_secs < u64_bound
      → sign_paymaster_data hex u256 eth signer now op chain_id ≡ ok signed
      → Parts signer now op chain_id signed (now + signer.validity_window_secs)
  unfolding sign_paymaster_data
  signed-Parts signer now op chain_id {signed = signed} small h =
      let until = (now + signer.validity_window_secs) % u64_bound in
      let (hash, hashed, h1) =
        bind_ok
          (compute_paymaster_hash hex u256 eth signer op chain_id until
            (now - clock_skew_grace_secs))
          _ h in
      let (sig, sign, h2) = bind_ok (signer.signing_key hash) _ h1 in
      subst (Parts signer now op chain_id signed) (mod-eq_of_lt small)
        (hash, sig, hashed, sign, sym (ok_inj _ signed h2))

  module _ (signer : PaymasterSigner) (now : ℕ) (fit : IsSigner signer) where
    abbrev address_part : List ℕ
    address_part = signer.paymaster_address

    abbrev verification_part : List ℕ
    verification_part = drop 16 (u256.to_big_endian signer.pm_verification_gas_limit)

    abbrev post_op_part : List ℕ
    post_op_part = drop 16 (u256.to_big_endian signer.pm_post_op_gas_limit)

    abbrev until_part : List ℕ
    until_part = u256.to_big_endian (now + signer.validity_window_secs)

    abbrev after_part : List ℕ
    after_part = u256.to_big_endian (now - clock_skew_grace_secs)

    -- The pieces, nested to the right.
    whole :
        (sig : List ℕ) {signed : List ℕ}
        → signed
          ≡ address_part
            ++ verification_part
            ++ post_op_part
            ++ eth.encode_tokens
                (uint (now + signer.validity_window_secs) ∷ uint (now - clock_skew_grace_secs) ∷ [])
            ++ sig
        → signed
          ≡ address_part
            ++ (verification_part ++ (post_op_part ++ (until_part ++ (after_part ++ sig))))
    whole sig e =
        e
        ∙ ap (λ t. address_part ++ verification_part ++ post_op_part ++ t ++ sig)
            (eth.encode_uints (now + signer.validity_window_secs) (now - clock_skew_grace_secs))
        ∙ regroup address_part verification_part post_op_part until_part after_part sig

    parts_read :
        (op : UserOperation) (chain_id : ℕ) (hash sig : List ℕ) {signed : List ℕ}
        → now + signer.validity_window_secs < u64_bound
        → compute_paymaster_hash hex u256 eth signer op chain_id
            (now + signer.validity_window_secs)
            (now - clock_skew_grace_secs)
          ≡ ok hash
        → signer.signing_key hash ≡ ok sig
        → signed
          ≡ address_part
            ++ (verification_part ++ (post_op_part ++ (until_part ++ (after_part ++ sig))))
        → IsSignedAt signer now op chain_id signed
    parts_read op chain_id hash sig small hashed sign e =
        let v_len = low_half-length u256 signer.pm_verification_gas_limit in
        let p_len = low_half-length u256 signer.pm_post_op_gas_limit in
        let u_len = u256.big_endian_len (now + signer.validity_window_secs) in
        let f_len = u256.big_endian_len (now - clock_skew_grace_secs) in
        let tail = after_part ++ sig in
        record {
          paymaster = ap (take 20) e ∙ take_prefix 20 address_part _ fit.address_len;
          verification =
              ap (λ l. read_uint128 u256 (take 16 (drop 20 l))) e
              ∙ ap (λ l. read_uint128 u256 (take 16 l))
                  (from_20 address_part verification_part post_op_part until_part after_part sig
                    fit.address_len v_len p_len u_len f_len)
              ∙ ap (read_uint128 u256) (take_prefix 16 verification_part _ v_len)
              ∙ read_uint128_low u256 signer.pm_verification_gas_limit fit.verification_fits;
          post_op =
              ap (λ l. read_uint128 u256 (take 16 (drop 36 l))) e
              ∙ ap (λ l. read_uint128 u256 (take 16 l))
                  (from_36 address_part verification_part post_op_part until_part after_part sig
                    fit.address_len v_len p_len u_len f_len)
              ∙ ap (read_uint128 u256) (take_prefix 16 post_op_part _ p_len)
              ∙ read_uint128_low u256 signer.pm_post_op_gas_limit fit.post_op_fits;
          valid_until =
              ap (λ l. u256.from_big_endian (take 32 (drop 52 l))) e
              ∙ ap (λ l. u256.from_big_endian (take 32 l))
                  (from_52 address_part verification_part post_op_part until_part after_part sig
                    fit.address_len v_len p_len u_len f_len)
              ∙ ap u256.from_big_endian (take_prefix 32 until_part tail u_len)
              ∙ u256.from_to_big_endian (now + signer.validity_window_secs) (omega arith);
          valid_after =
              ap (λ l. u256.from_big_endian (take 32 (drop 84 l))) e
              ∙ ap (λ l. u256.from_big_endian (take 32 l))
                  (from_84 address_part verification_part post_op_part until_part after_part sig
                    fit.address_len v_len p_len u_len f_len)
              ∙ ap u256.from_big_endian (take_prefix 32 after_part sig f_len)
              ∙ u256.from_to_big_endian (now - clock_skew_grace_secs) (omega arith);
          signature = (
            hash,
            compute_paymaster_hash-IsPaymasterHash hex u256 eth signer op chain_id
                (now + signer.validity_window_secs) (now - clock_skew_grace_secs) hash hashed,
            sign
                ∙ ap ok (
                    sym (
                      ap (drop 116) e
                      ∙ from_116 address_part verification_part post_op_part until_part after_part
                          sig fit.address_len v_len p_len u_len f_len)),
          );
        }

  -- The data signed at `now` is read back, at its fixed offsets, as what the signer put in, and
  -- what it signed is the paymaster's hash of every field that IsPaymasterHash lists, gas and fees
  -- included, for the very window that is read; for a signer that is well formed and a window that
  -- ends below 2 ^ 64, before the sum of the code wraps.
  pub sign_paymaster_data-IsSignedAt :
      (signer : PaymasterSigner) (now : ℕ) (op : UserOperation) (chain_id : ℕ) {signed : List ℕ}
      → IsSigner signer
      → now + signer.validity_window_secs < u64_bound
      → sign_paymaster_data hex u256 eth signer now op chain_id ≡ ok signed
      → IsSignedAt signer now op chain_id signed
  sign_paymaster_data-IsSignedAt signer now op chain_id fit small h =
      let (hash, sig, hashed, sign, e) = signed-Parts signer now op chain_id small h in
      parts_read signer now fit op chain_id hash sig small hashed sign (whole signer now fit sig e)
