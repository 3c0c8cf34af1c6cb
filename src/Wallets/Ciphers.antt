-- ===== src/Wallets/Ciphers.antt =====
-- src/agent_wallet/mod.rs: the encryption of the signing keys at rest.
use agent_execution_platform.Prelude.{
  ℕ, zero, suc, ◌≤◌, ◌≡◌, refl, Bool, true, false, not, ◌&&◌, Option, some, List, [], ◌∷◌, ◌++◌,
  arith, length, take, drop, ltb, leb, ◌==◌, if◌then◌else◌, Option-cases, inl, inr, length-append,
  take-append_length, drop-append_length,
}
use agent_execution_platform.Prelude.Text.{Text}
use agent_execution_platform.Prelude.Results.{
  Result, ok, or_err, fail_if, bind_eq, fail_if_passed, ◌>>=◌, ◌>>◌,
}

-- `Aes256Gcm` under a key of 32 bytes, and the standard alphabet of crate base64.
pub record Cipher : Type 0 where
  -- The key, the nonce and the bytes; the tag is behind the ciphertext.
  pub encrypt : List ℕ → List ℕ → List ℕ → Option (List ℕ)
  pub decrypt : List ℕ → List ℕ → List ℕ → Option (List ℕ)
  pub base64_encode : List ℕ → Text
  pub base64_decode : Text → Option (List ℕ)
  -- What was encrypted is decrypted under the same key and nonce, and has a tag.
  pub decrypt_encrypt :
      (key nonce plain c : List ℕ)
      → encrypt key nonce plain ≡ some c
      → decrypt key nonce c ≡ some plain
  pub tagged : (key nonce plain c : List ℕ) → encrypt key nonce plain ≡ some c → 16 ≤ length c
  pub decode_encode : (b : List ℕ) → base64_decode (base64_encode b) ≡ some b

pub data CipherError : Type 0 where
  encryption_failed invalid_base64 too_short decryption_failed not_utf8 : CipherError

-- `String::from_utf8`: whether bytes are UTF-8, with `n` bytes of a character to come, of which the
-- next is from `lo` to `hi`.
utf8_from : ℕ → ℕ → ℕ → List ℕ → Bool
utf8_from zero lo hi [] = true
utf8_from (suc n) lo hi [] = false
utf8_from zero lo hi (b ∷ s) =
    if ltb b 0x80
    then utf8_from 0 0 0 s
    else if leb 0xc2 b && leb b 0xdf
    then utf8_from 1 0x80 0xbf s
    else if b == 0xe0
    then utf8_from 2 0xa0 0xbf s
    else if b == 0xed
    then utf8_from 2 0x80 0x9f s
    else if leb 0xe1 b && leb b 0xef
    then utf8_from 2 0x80 0xbf s
    else if b == 0xf0
    then utf8_from 3 0x90 0xbf s
    else if leb 0xf1 b && leb b 0xf3
    then utf8_from 3 0x80 0xbf s
    else if b == 0xf4
    then utf8_from 3 0x80 0x8f s
    else false
utf8_from (suc n) lo hi (b ∷ s) =
    let rest = utf8_from n 0x80 0xbf s in if leb lo b && leb b hi then rest else false

unfoldable pub is_utf8 : List ℕ → Bool
unfolding utf8_from
is_utf8 b = utf8_from 0 0 0 b

module _ (cipher : Cipher) where
  -- The nonce is drawn by the caller, which the code does in between.
  unfoldable pub encrypt_key_hex : List ℕ → List ℕ → List ℕ → Result CipherError Text
  encrypt_key_hex encryption_key nonce_bytes key_hex = do
    ciphertext ← or_err (cipher.encrypt encryption_key nonce_bytes key_hex) encryption_failed
    ok (cipher.base64_encode (nonce_bytes ++ ciphertext))

  unfoldable pub decrypt_key_hex : List ℕ → Text → Result CipherError (List ℕ)
  decrypt_key_hex encryption_key encrypted_b64 = do
    combined ← or_err (cipher.base64_decode encrypted_b64) invalid_base64
    fail_if (ltb (length combined) 13) too_short
    plaintext ←
        or_err (cipher.decrypt encryption_key (take 12 combined) (drop 12 combined))
          decryption_failed
    fail_if (not (is_utf8 plaintext)) not_utf8
    ok plaintext

  -- A key that was encrypted under a nonce of twelve bytes is decrypted to itself.
  pub decrypt_key_hex-encrypt_key_hex :
      (key nonce key_hex : List ℕ) (out : Text)
      → length nonce ≡ 12
      → is_utf8 key_hex ≡ true
      → encrypt_key_hex key nonce key_hex ≡ ok out
      → decrypt_key_hex key out ≡ ok key_hex
  unfolding encrypt_key_hex decrypt_key_hex
  decrypt_key_hex-encrypt_key_hex key nonce key_hex out len valid h =
      elim (Option-cases (cipher.encrypt key nonce key_hex)) [
        | inl e ↦ absurd (ground arith)
        | inr (c, e) ↦
            let combined = nonce ++ c in
            rw (← output c e h) (
              bind_eq (or_err (cipher.base64_decode (cipher.base64_encode combined)) invalid_base64)
                _ combined (rw (cipher.decode_encode combined) refl)
                (fail_if_passed (ltb (length combined) 13) _ _
                  (long_enough c (cipher.tagged key nonce key_hex c e))
                  (bind_eq
                    (or_err (cipher.decrypt key (take 12 combined) (drop 12 combined))
                      decryption_failed)
                    _ key_hex (decrypted c e)
                    (fail_if_passed (not (is_utf8 key_hex)) _ _ (rw valid refl) refl))))
      ]
    where
      output :
          (c : List ℕ)
          → cipher.encrypt key nonce key_hex ≡ some c
          → encrypt_key_hex key nonce key_hex ≡ ok out
          → cipher.base64_encode (nonce ++ c) ≡ out
      output c e h = ground arith

      cut_front : (c : List ℕ) → take 12 (nonce ++ c) ≡ nonce
      cut_front c = rw (← len) (take-append_length nonce c)

      cut_back : (c : List ℕ) → drop 12 (nonce ++ c) ≡ c
      cut_back c = rw (← len) (drop-append_length nonce c)

      long_enough : (c : List ℕ) → 16 ≤ length c → ltb (length (nonce ++ c)) 13 ≡ false
      long_enough c h = ground (arith, length-append nonce c)

      decrypted :
          (c : List ℕ)
          → cipher.encrypt key nonce key_hex ≡ some c
          → or_err
              (cipher.decrypt key (take 12 (nonce ++ c)) (drop 12 (nonce ++ c)))
              decryption_failed
            ≡ ok key_hex
      decrypted c e =
          rw (cut_front c, cut_back c, cipher.decrypt_encrypt key nonce key_hex c e) refl
