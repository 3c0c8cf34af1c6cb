-- ===== src/Tests/AbiWords.antt =====
-- The decoding of tokens, a word of 32 bytes for each, for the runs.
use agent_execution_platform.Prelude.{
  ℕ, zero, suc, ◌==◌, ◌%◌, ◌<◌, ◌≡◌, drop, Option, none, some, List, [], ◌∷◌, take, if◌then◌else◌,
  arith,
}
use mathlib.Core.Path.{subst}
use mathlib.Core.Option.{some-injective}
use agent_execution_platform.Prelude.Text.{is_empty}
use agent_execution_platform.Crates.{
  Tokens, no_tokens, and_tokens, tuple, ParamType, address_type, uint_type, tuple_type, bool_type,
  boolean, array_type, array, AllHaveType, ParamTypes, no_types, and_types, HasType, HaveTypes,
  u256_bound, Token, address, uint,
}
use agent_execution_platform.Tests.BigEndian.{bytes_value}

mod_below : (n : ℕ) → n % u256_bound < u256_bound
mod_below n = omega arith

-- So many tokens, one after the other.
abbrev repeated : (List ℕ → Token × List ℕ) → ℕ → List ℕ → Tokens × List ℕ
repeated next zero raw = (no_tokens, raw)
repeated next (suc n) raw =
    let (t, rest) = next raw in let (ts, rest') = repeated next n rest in (and_tokens t ts, rest')

repeated_types :
    (p : ParamType) (next : List ℕ → Token × List ℕ)
    → ((raw : List ℕ) → HasType p (next raw).0)
    → (n : ℕ) (raw : List ℕ) → AllHaveType p (repeated next n raw).0
unfolding HasType
repeated_types p next fits zero raw = tt
repeated_types p next fits (suc n) raw = (fits raw, repeated_types p next fits n (next raw).1)

-- Every field of a type that is asked for is one word of 32 bytes, and an array the number of its
-- entries, then the entries.
unfoldable mutual
  pub decode_one : ParamType → List ℕ → Token × List ℕ
  decode_one address_type raw = (address (drop 12 (take 32 raw)), drop 32 raw)
  decode_one (uint_type w) raw = (uint (bytes_value 0 (take 32 raw) % u256_bound), drop 32 raw)
  decode_one (tuple_type ps) raw = let (ts, rest) = decode_all ps raw in (tuple ts, rest)
  decode_one bool_type raw = (boolean (bytes_value 0 (take 32 raw) == 1), drop 32 raw)
  decode_one (array_type p) raw =
      let (ts, rest) = repeated (decode_one p) (bytes_value 0 (take 32 raw)) (drop 32 raw) in
      (array ts, rest)

  pub decode_all : ParamTypes → List ℕ → Tokens × List ℕ
  decode_all no_types raw = (no_tokens, raw)
  decode_all (and_types p ps) raw =
      let (t, rest) = decode_one p raw in
      let (ts, rest') = decode_all ps rest in (and_tokens t ts, rest')

abbrev pub decode_tokens : ParamTypes → List ℕ → Option Tokens
decode_tokens ps raw = if is_empty raw then none else some (decode_all ps raw).0

mutual
  unfolding decode_one HasType

  decode_one_type : (p : ParamType) (raw : List ℕ) → HasType p (decode_one p raw).0
  decode_one_type address_type raw = tt
  decode_one_type (uint_type w) raw = mod_below (bytes_value 0 (take 32 raw))
  decode_one_type (tuple_type ps) raw = decode_all_types ps raw
  decode_one_type bool_type raw = tt
  decode_one_type (array_type p) raw =
      repeated_types p (decode_one p) (decode_one_type p) (bytes_value 0 (take 32 raw))
        (drop 32 raw)

  decode_all_types : (ps : ParamTypes) (raw : List ℕ) → HaveTypes ps (decode_all ps raw).0
  decode_all_types no_types raw = tt
  decode_all_types (and_types p ps) raw =
      (decode_one_type p raw, decode_all_types ps (decode_one p raw).1)

pub decode_tokens-types :
    (ps : ParamTypes) (raw : List ℕ) (ts : Tokens)
    → decode_tokens ps raw ≡ some ts
    → HaveTypes ps ts
decode_tokens-types ps [] ts h = absurd (ground arith)
decode_tokens-types ps (b ∷ raw) ts h =
    subst (HaveTypes ps) (some-injective _ _ h) (decode_all_types ps (b ∷ raw))
