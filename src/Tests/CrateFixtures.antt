-- ===== src/Tests/CrateFixtures.antt =====
-- The crates' parameters as concrete functions, for the runs: hex digits and big-endian bytes in
-- earnest, and a digest and an encoding that only keep their documented shape.
use agent_execution_platform.Prelude.{
  All, All-append, zero, suc, ℕ, ◌+◌, ◌*◌, ◌≡◌, refl, true, ◌&&◌, Option, none, some, List, [], ◌∷◌,
  ◌++◌, length, replicate, ◌==◌, if◌then◌else◌, arith,
}
use agent_execution_platform.Prelude.Text.{Text, text, byte_len, starts_with, strip_0x}
use agent_execution_platform.Prelude.Decimal.{all_hex}
use agent_execution_platform.Crates.{
  Hex, U256, Ethers, IsByte, IsAddress, OfBytes, tuple, boolean, array, fields, Token, address,
  uint, fixed_bytes, dynamic_bytes, call_tuples,
}
unfoldable pub use agent_execution_platform.Tests.HexDigits.{encode, decode}
use agent_execution_platform.Tests.HexDigits.{
  decode-encode, decode-len, decode-bytes, encode-len, strip-encode, encode-nil, digit_value,
  decode_hex,
}
unfoldable pub use agent_execution_platform.Tests.BigEndian.{big_endian}
pub use agent_execution_platform.Tests.BigEndian.{
  bytes_value, big_endian-len, big_endian-bytes, bytes_value-big_endian, leading_zeros,
}
use agent_execution_platform.Tests.Decimals.{
  from_dec_str, from_dec_str-digits, dec_digits, dec_digits-digits, dec_digits-value,
}
unfoldable pub use agent_execution_platform.Tests.AbiWords.{decode_one, decode_all}
use agent_execution_platform.Tests.AbiWords.{decode_tokens, decode_tokens-types}

abbrev pub hex : Hex
hex = record {
  encode = encode;
  decode = decode;
  decode_encode = decode-encode;
  decode_len = decode-len;
  strip_encode = strip-encode;
  encode_nil = encode-nil;
}

abbrev pub hex_from : ℕ → Text → Option ℕ
hex_from acc [] = some acc
hex_from acc (c ∷ s) = elim (digit_value c) [ some n ↦ hex_from (acc * 16 + n) s | none ↦ none ]

abbrev pub u256 : U256
u256 = record {
  to_big_endian = big_endian 32;
  from_big_endian = bytes_value 0;
  from_str_radix_16 = hex_from 0;
  from_dec_str = from_dec_str;
  hex_digits = λ n. encode (big_endian 32 n);
  big_endian_len = big_endian-len 32;
  big_endian_bytes = big_endian-bytes 32;
  from_digits = from_dec_str-digits;
  to_string = dec_digits 78;
  to_string_digits = dec_digits-digits 78;
  to_string_value = λ n h. dec_digits-value 78 n (omega arith);
  from_to_big_endian = bytes_value-big_endian 32;
  high_half = λ n h. leading_zeros 16 32 n refl h;
}

abbrev pub parse_address : Text → Option (List ℕ)
parse_address [] = none
parse_address (c ∷ []) = none
parse_address (c ∷ d ∷ t) = if c == b'0' && d == b'x' && length t == 40 then decode t else none

pub parse_address-digits :
    (t : Text)
    → length t ≡ 40
    → all_hex t ≡ true
    → (a : List ℕ) × (parse_address (text "0x" ++ t) ≡ some a)
parse_address-digits t e h = let (b, r) = decode_hex 20 t (omega arith) h in (b, rw (e, r) refl)

abbrev pub token_bytes : Token → List ℕ
token_bytes (address a) = replicate 12 0 ++ a
token_bytes (uint n) = big_endian 32 n
token_bytes (fixed_bytes b) = b
token_bytes (dynamic_bytes b) = big_endian 32 (length b) ++ b
token_bytes (call_tuples calls) = big_endian 32 (length calls)
token_bytes (tuple ts) = big_endian 32 (length (fields ts))
token_bytes (boolean b) = big_endian 32 (if b then 1 else 0)
token_bytes (array ts) = big_endian 32 (length (fields ts))

abbrev pub tokens_bytes : List Token → List ℕ
tokens_bytes [] = []
tokens_bytes (t ∷ []) = token_bytes t
tokens_bytes (t ∷ u ∷ ts) = token_bytes t ++ tokens_bytes (u ∷ ts)

pub parse_address-IsAddress : (t : Text) (a : List ℕ) → parse_address t ≡ some a → IsAddress a
parse_address-IsAddress [] a h = absurd (ground arith)
parse_address-IsAddress (c ∷ []) a h = absurd (ground arith)
parse_address-IsAddress (c ∷ d ∷ t) a h =
    let (short, digits) = guarded h in
    let (len, bytes) = decode-bytes t a digits in (omega (arith, short, len), bytes)
  where
    guarded :
        (if c == b'0' && d == b'x' && length t == 40 then decode t else none) ≡ some a
        → (length t ≡ 40) × (decode t ≡ some a)
    guarded h = ground arith

pub printed_address :
    (a : List ℕ)
    → IsAddress a
    → (starts_with (text "0x") (text "0x" ++ encode a) ≡ true)
      × (byte_len (text "0x" ++ encode a) ≡ 42)
printed_address a (len, bytes) = (refl, omega (arith, encode-len a bytes, len))

zeros_bytes : (n : ℕ) → All IsByte (replicate n 0)
zeros_bytes zero = tt
zeros_bytes (suc n) = (omega arith, zeros_bytes n)

token_bytes-bytes : (t : Token) → OfBytes t → All IsByte (token_bytes t)
unfolding OfBytes
token_bytes-bytes (address a) (len, h) = All-append IsByte (replicate 12 0) a (zeros_bytes 12) h
token_bytes-bytes (uint n) h = big_endian-bytes 32 n
token_bytes-bytes (fixed_bytes b) h = h
token_bytes-bytes (dynamic_bytes b) h =
    All-append IsByte (big_endian 32 (length b)) b (big_endian-bytes 32 (length b)) h
token_bytes-bytes (call_tuples calls) h = big_endian-bytes 32 (length calls)
token_bytes-bytes (tuple ts) h = big_endian-bytes 32 (length (fields ts))
token_bytes-bytes (boolean b) h = big_endian-bytes 32 (if b then 1 else 0)
token_bytes-bytes (array ts) h = big_endian-bytes 32 (length (fields ts))

pub tokens_bytes-bytes : (ts : List Token) → All OfBytes ts → All IsByte (tokens_bytes ts)
tokens_bytes-bytes [] h = tt
tokens_bytes-bytes (t ∷ []) (h, rest) = token_bytes-bytes t h
tokens_bytes-bytes (t ∷ u ∷ ts) (h, rest) =
    All-append IsByte (token_bytes t) (tokens_bytes (u ∷ ts)) (token_bytes-bytes t h)
      (tokens_bytes-bytes (u ∷ ts) rest)

abbrev pub eth : Ethers u256
eth = record {
  printed = printed_address;
  parsed = parse_address-IsAddress;
  encoded_bytes = tokens_bytes-bytes;
  digest = λ b. (big_endian-len 32 (bytes_value 0 b), big_endian-bytes 32 (bytes_value 0 b));
  parse_address = parse_address;
  parse_h256 = λ t. decode (strip_0x t);
  print_address = λ a. text "0x" ++ encode a;
  parse_digits = parse_address-digits;
  encode_tokens = tokens_bytes;
  decode_tokens = decode_tokens;
  decoded_types = decode_tokens-types;
  keccak256 = λ b. big_endian 32 (bytes_value 0 b);
  encode_uints = λ a b. refl;
}

abbrev pub parsed : Text → List ℕ
parsed t = elim (parse_address t) [ none ↦ [] | some a ↦ a ]

-- An address that ends with the byte n.
abbrev pub addr : ℕ → List ℕ
addr n = replicate 19 0 ++ (n ∷ [])
