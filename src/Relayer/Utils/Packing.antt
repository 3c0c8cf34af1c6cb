-- ===== src/Relayer/Utils/Packing.antt =====
-- src/relayer/erc4337/mod.rs: what was packed is unpacked again.
use agent_execution_platform.Prelude.{
  ℕ, zero, suc, ◌*◌, ◌<◌, ◌≡◌, refl, sym, ap, ◌∙◌, false, List, [], ◌∷◌, ◌++◌, All, length, take,
  drop, length-append, length-drop, take-append_length, drop-append_length, arith,
}
use agent_execution_platform.Prelude.Text.{Text, is_empty, byte_len, strip_0x}
use agent_execution_platform.Prelude.Results.{ok}
use agent_execution_platform.Crates.{Hex, U256, IsByte, u128_bound}
use agent_execution_platform.Relayer.Utils.{
  with_0x, parse_hex_bytes, parse_hex_bytes32, pack_two_uint128, read_uint128,
  unpack_two_uint128_from_hex,
}

pub All-append : (P : ℕ → Type 0) (xs ys : List ℕ) → All P xs → All P ys → All P (xs ++ ys)
All-append P [] ys p q = q
All-append P (x ∷ xs) ys (h, p) q = (h, All-append P xs ys p q)

pub All-drop : (P : ℕ → Type 0) (n : ℕ) (xs : List ℕ) → All P xs → All P (drop n xs)
All-drop P zero xs p = p
All-drop P (suc n) [] p = tt
All-drop P (suc n) (x ∷ xs) (h, p) = All-drop P n xs p

pub take-append_drop : (n : ℕ) (xs : List ℕ) → take n xs ++ drop n xs ≡ xs
take-append_drop zero xs = refl
take-append_drop (suc n) [] = refl
take-append_drop (suc n) (x ∷ xs) = ap (◌∷◌ x) (take-append_drop n xs)

pub take_prefix : (n : ℕ) (xs ys : List ℕ) → length xs ≡ n → take n (xs ++ ys) ≡ xs
take_prefix n xs ys e = ap (λ k. take k (xs ++ ys)) (sym e) ∙ take-append_length xs ys

pub drop_prefix : (n : ℕ) (xs ys : List ℕ) → length xs ≡ n → drop n (xs ++ ys) ≡ ys
drop_prefix n xs ys e = ap (λ k. drop k (xs ++ ys)) (sym e) ∙ drop-append_length xs ys

pub take_all : (n : ℕ) (xs : List ℕ) → length xs ≡ n → take n xs ≡ xs
take_all zero [] e = refl
take_all zero (x ∷ xs) e = absurd (omega arith)
take_all (suc n) [] e = absurd (omega arith)
take_all (suc n) (x ∷ xs) e = ap (◌∷◌ x) (take_all n xs (omega arith))

module _ (hex : Hex) where
  strip_with_0x : (b : List ℕ) → strip_0x (with_0x (hex.encode b)) ≡ hex.encode b
  strip_with_0x b = hex.strip_encode b

  -- Bytes that were printed with 0x are read back.
  pub parse_hex_bytes-encode :
      (b : List ℕ) → All IsByte b → parse_hex_bytes hex (with_0x (hex.encode b)) ≡ ok b
  unfolding parse_hex_bytes
  parse_hex_bytes-encode [] bytes = rw hex.encode_nil
  parse_hex_bytes-encode (x ∷ xs) bytes =
      let e = hex.decode_encode (x ∷ xs) bytes in
      let full =
        non_empty (hex.encode (x ∷ xs)) (hex.decode_len (hex.encode (x ∷ xs)) (x ∷ xs) e) in
      rw (hex.strip_encode (x ∷ xs), full, e)
    where
      non_empty : (t : Text) → byte_len t ≡ 2 * length (x ∷ xs) → is_empty t ≡ false
      non_empty [] h = absurd (omega arith)
      non_empty (c ∷ t) h = refl

  pub parse_hex_bytes32-encode :
      (b : List ℕ)
      → All IsByte b
      → length b ≡ 32
      → parse_hex_bytes32 hex (with_0x (hex.encode b)) ≡ ok b
  unfolding parse_hex_bytes32
  parse_hex_bytes32-encode b bytes len = rw (parse_hex_bytes-encode b bytes, full b len, len)
    where
      full : (b : List ℕ) → length b ≡ 32 → is_empty b ≡ false
      full [] h = absurd (omega arith)
      full (c ∷ t) h = refl

module _ (u256 : U256) where
  pub low_half-length : (n : ℕ) → length (drop 16 (u256.to_big_endian n)) ≡ 16
  low_half-length n = length-drop 16 (u256.to_big_endian n) ∙ rw (u256.big_endian_len n)

  pub pack_two_uint128-bytes : (high low : ℕ) → All IsByte (pack_two_uint128 u256 high low)
  unfolding pack_two_uint128
  pack_two_uint128-bytes high low =
      All-append IsByte (drop 16 (u256.to_big_endian high)) (drop 16 (u256.to_big_endian low))
        (All-drop IsByte 16 (u256.to_big_endian high) (u256.big_endian_bytes high))
        (All-drop IsByte 16 (u256.to_big_endian low) (u256.big_endian_bytes low))

  pub pack_two_uint128-length : (high low : ℕ) → length (pack_two_uint128 u256 high low) ≡ 32
  unfolding pack_two_uint128
  pack_two_uint128-length high low = omega (
    arith,
    length-append (drop 16 (u256.to_big_endian high)) (drop 16 (u256.to_big_endian low)),
    low_half-length high,
    low_half-length low,
  )

  -- The low half of a number that fits in it is the number.
  pub read_uint128_low :
      (n : ℕ) → n < u128_bound → read_uint128 u256 (drop 16 (u256.to_big_endian n)) ≡ n
  unfolding read_uint128
  read_uint128_low n small =
      ap (λ zeros. u256.from_big_endian (zeros ++ drop 16 (u256.to_big_endian n)))
        (sym (u256.high_half n small))
      ∙ ap u256.from_big_endian (take-append_drop 16 (u256.to_big_endian n))
      ∙ u256.from_to_big_endian n (omega arith)

module _ (hex : Hex) (u256 : U256) where
  -- Two numbers below 2 ^ 128 come back from their packing, printed in hex, as they were.
  pub unpack-pack_two_uint128 :
      (high low : ℕ)
      → high < u128_bound
      → low < u128_bound
      → unpack_two_uint128_from_hex hex u256 (with_0x (hex.encode (pack_two_uint128 u256 high low)))
        ≡ ok (high, low)
  unfolding unpack_two_uint128_from_hex pack_two_uint128
  unpack-pack_two_uint128 high low h l =
      let packed = pack_two_uint128 u256 high low in
      let hi = drop 16 (u256.to_big_endian high) in
      let lo = drop 16 (u256.to_big_endian low) in
      rw (
        parse_hex_bytes32-encode hex packed (pack_two_uint128-bytes u256 high low)
            (pack_two_uint128-length u256 high low),
        take_prefix 16 hi lo (low_half-length u256 high),
        drop_prefix 16 hi lo (low_half-length u256 high),
        take_all 16 lo (low_half-length u256 low),
        read_uint128_low u256 high h,
        read_uint128_low u256 low l,
      )
