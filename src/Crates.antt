-- ===== src/Crates.antt =====
-- The third-party crates that the program calls for text, bytes and numbers (hex, ethers), as
-- parameters. Bytes are numbers below 256, an address its 20 bytes, a U256 a number below 2 ^ 256.
use agent_execution_platform.Prelude.{
  ℕ, ◌+◌, ◌*◌, ◌^◌, ◌<◌, ◌≤◌, ◌≡◌, Bool, true, Option, none, some, List, [], ◌∷◌, ◌++◌, All, length,
  take, replicate, ltb, if◌then◌else◌,
}
use agent_execution_platform.Prelude.Text.{Text, text, byte_len, starts_with, strip_0x}
use agent_execution_platform.Prelude.Decimal.{all_digits, all_hex, dec_value}
use agent_execution_platform.Prelude.Actions.{Action}

abbrev pub u256_bound : ℕ
u256_bound = 2 ^ 256

abbrev pub u128_bound : ℕ
u128_bound = 2 ^ 128

abbrev pub u64_bound : ℕ
u64_bound = 2 ^ 64

abbrev pub u64_max : ℕ
u64_max = 18446744073709551615

abbrev pub IsByte : ℕ → Type 0
IsByte b = b < 256

-- Crate hex: two digits for each byte; what is read has two digits for each byte.
pub record Hex : Type 0 where
  pub encode : List ℕ → Text
  pub decode : Text → Option (List ℕ)
  pub decode_encode : (b : List ℕ) → All IsByte b → decode (encode b) ≡ some b
  pub decode_len : (t : Text) (b : List ℕ) → decode t ≡ some b → byte_len t ≡ 2 * length b
  -- Hex digits never begin with 0x, so a prefix is stripped and nothing more.
  pub strip_encode : (b : List ℕ) → strip_0x (encode b) ≡ encode b
  pub encode_nil : encode [] ≡ []

-- `ethers::types::U256`: big-endian bytes, and text in radix 10 and 16.
pub record U256 : Type 0 where
  pub to_big_endian : ℕ → List ℕ
  pub from_big_endian : List ℕ → ℕ
  pub from_str_radix_16 : Text → Option ℕ
  pub from_dec_str : Text → Option ℕ
  -- The digits of `{:x}`; `{:#x}` puts 0x in front.
  pub hex_digits : ℕ → Text
  pub big_endian_len : (n : ℕ) → length (to_big_endian n) ≡ 32
  pub big_endian_bytes : (n : ℕ) → All IsByte (to_big_endian n)
  pub from_to_big_endian : (n : ℕ) → n < u256_bound → from_big_endian (to_big_endian n) ≡ n
  -- Digits are read as the number that they write, unless it does not fit in 256 bits.
  pub from_digits :
      (t : Text)
      → all_digits t ≡ true
      → from_dec_str t ≡ (if ltb (dec_value t) u256_bound then some (dec_value t) else none)
  -- `Display`: the number in base ten.
  pub to_string : ℕ → Text
  pub to_string_digits : (n : ℕ) → all_digits (to_string n) ≡ true
  pub to_string_value : (n : ℕ) → n < u256_bound → dec_value (to_string n) ≡ n
  -- The high half of a number that fits in 128 bits is zero.
  pub high_half : (n : ℕ) → n < u128_bound → take 16 (to_big_endian n) ≡ replicate 16 0

-- `ethers::abi::Token`, the cases that the program builds or takes apart.
mutual
  pub data Token : Type 0 where
    address : List ℕ → Token
    uint : ℕ → Token
    fixed_bytes : List ℕ → Token
    dynamic_bytes : List ℕ → Token
    -- An array of tuples of an address, a uint and bytes.
    call_tuples : List (List ℕ × ℕ × List ℕ) → Token
    tuple : Tokens → Token
    boolean : Bool → Token
    -- An array of tokens of one type.
    array : Tokens → Token

  pub data Tokens : Type 0 where
    no_tokens : Tokens
    and_tokens : Token → Tokens → Tokens

-- The fields of a tuple as a list, and back.
abbrev pub fields : Tokens → List Token
fields no_tokens = []
fields (and_tokens t ts) = t ∷ fields ts

abbrev pub tuple_of : List Token → Tokens
tuple_of [] = no_tokens
tuple_of (t ∷ ts) = and_tokens t (tuple_of ts)

-- `ethers::abi::ParamType`, the types that the program decodes.
mutual
  pub data ParamType : Type 0 where
    address_type : ParamType
    uint_type : ℕ → ParamType
    tuple_type : ParamTypes → ParamType
    bool_type : ParamType
    array_type : ParamType → ParamType

  pub data ParamTypes : Type 0 where
    no_types : ParamTypes
    and_types : ParamType → ParamTypes → ParamTypes

-- The tokens of a type. Decoding does not look at the width of a uint, only at its 32 bytes.
unfoldable mutual
  pub HasType : ParamType → Token → Type 0
  HasType address_type (address a) = Unit
  HasType (uint_type w) (uint n) = n < u256_bound
  HasType (tuple_type ps) (tuple ts) = HaveTypes ps ts
  HasType bool_type (boolean b) = Unit
  HasType (array_type p) (array ts) = AllHaveType p ts
  HasType p t = ⊥

  pub HaveTypes : ParamTypes → Tokens → Type 0
  HaveTypes no_types no_tokens = Unit
  HaveTypes (and_types p ps) (and_tokens t ts) = HasType p t × HaveTypes ps ts
  HaveTypes ps ts = ⊥

  pub AllHaveType : ParamType → Tokens → Type 0
  AllHaveType p no_tokens = Unit
  AllHaveType p (and_tokens t ts) = HasType p t × AllHaveType p ts

-- `Address`.
abbrev pub IsAddress : List ℕ → Type 0
IsAddress a = (length a ≡ 20) × All IsByte a

-- Tokens hold bytes where Rust has `Vec<u8>` and `Address`.
unfoldable mutual
  pub OfBytes : Token → Type 0
  OfBytes (address a) = IsAddress a
  OfBytes (uint n) = Unit
  OfBytes (fixed_bytes b) = All IsByte b
  OfBytes (dynamic_bytes b) = All IsByte b
  OfBytes (call_tuples calls) = All (λ (a, n, b). IsAddress a × All IsByte b) calls
  OfBytes (tuple ts) = AllOfBytes ts
  OfBytes (boolean b) = Unit
  OfBytes (array ts) = AllOfBytes ts

  pub AllOfBytes : Tokens → Type 0
  AllOfBytes no_tokens = Unit
  AllOfBytes (and_tokens t ts) = OfBytes t × AllOfBytes ts

-- `ethers::types::Address`, `abi::encode` and `keccak256`.
pub record Ethers (u256 : U256) : Type 0 where
  pub parse_address : Text → Option (List ℕ)
  -- `str::parse::<H256>`.
  pub parse_h256 : Text → Option (List ℕ)
  -- `{:?}`: 0x and forty lower-case digits.
  pub print_address : List ℕ → Text
  pub printed :
      (a : List ℕ)
      → IsAddress a
      → (starts_with (text "0x") (print_address a) ≡ true) × (byte_len (print_address a) ≡ 42)
  pub parsed : (t : Text) (a : List ℕ) → parse_address t ≡ some a → IsAddress a
  -- An address in hexadecimal digits, of either case.
  pub parse_digits :
      (t : Text)
      → length t ≡ 40
      → all_hex t ≡ true
      → (a : List ℕ) × (parse_address (text "0x" ++ t) ≡ some a)
  pub encode_tokens : List Token → List ℕ
  pub encoded_bytes : (ts : List Token) → All OfBytes ts → All IsByte (encode_tokens ts)
  -- `abi::decode`, with the types asked for, answers a token for each of them, of the type.
  pub decode_tokens : ParamTypes → List ℕ → Option Tokens
  pub decoded_types :
      (ps : ParamTypes) (raw : List ℕ) (ts : Tokens)
      → decode_tokens ps raw ≡ some ts
      → HaveTypes ps ts
  pub keccak256 : List ℕ → List ℕ
  pub digest : (b : List ℕ) → (length (keccak256 b) ≡ 32) × All IsByte (keccak256 b)
  -- Two numbers are encoded as their 32 bytes each.
  pub encode_uints :
      (a b : ℕ)
      → encode_tokens (uint a ∷ uint b ∷ []) ≡ u256.to_big_endian a ++ u256.to_big_endian b

pub record TransactionRequest : Type 0 where
  pub from : Option (List ℕ)
  pub to : List ℕ
  pub calldata : List ℕ
  pub value : Option ℕ

-- `ethers::providers::Provider`: a node that answers or fails, with a text, and goes its own way
-- between the calls.
pub record Provider (C : Type 0) : Type 0 where
  pub call : TransactionRequest → Action C Text (List ℕ)
  pub estimate_gas : TransactionRequest → Action C Text ℕ
  pub get_code : List ℕ → Action C Text (List ℕ)
  pub get_chainid : Action C Text ℕ
  -- The latest block's `base_fee_per_gas`; the outer option is the block.
  pub latest_base_fee : Action C Text (Option (Option ℕ))

-- The clock and `tokio::time::sleep`, in seconds.
pub record Clock (C : Type 0) : Type 0 where
  pub now : C → ℕ
  pub sleep : ℕ → C → C
  pub slept : (d : ℕ) (c : C) → now c + d ≤ now (sleep d c)
