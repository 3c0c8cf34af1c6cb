-- ===== src/Protocols/Balancer/Pools.antt =====
-- src/protocols/balancer_v3/: the calls that read a pool or ask for a quote, and their replies.
use agent_execution_platform.Prelude.{
  ℕ, Bool, false, ◌||◌, ◌&&◌, Option, none, some, List, [], ◌∷◌, length, ◌==◌, if◌then◌else◌,
}
use agent_execution_platform.Prelude.Text.{Text, text, text_eq}
use agent_execution_platform.Prelude.Results.{Result, ok, err, or_err, ◌>>=◌}
use agent_execution_platform.Crates.{
  Hex, U256, Ethers, Token, address, uint, dynamic_bytes, boolean, array, fields, ParamType,
  address_type, uint_type, tuple_type, bool_type, array_type,
}
use agent_execution_platform.Protocols.Calldata.{types, entry, selector, encode_call}
use agent_execution_platform.Protocols.Balancer.{
  BalancerSwapKind, exact_in, exact_out, BalancerSwapRequest, BalancerError, undecodable_reply,
  unexpected_reply, lengths_differ, bad_calldata,
}
use agent_execution_platform.Protocols.Balancer.Checks.{parse_address, amount}

-- `into_address` and the like on a token that may be missing.
abbrev as_uint : Option Token → Result BalancerError ℕ
as_uint (some (uint value)) = ok value
as_uint t = err unexpected_reply

abbrev as_bool : Option Token → Result BalancerError Bool
as_bool (some (boolean value)) = ok value
as_bool t = err unexpected_reply

abbrev as_array : Option Token → Result BalancerError (List Token)
as_array (some (array ts)) = ok (fields ts)
as_array t = err unexpected_reply

abbrev uints : List Token → Result BalancerError (List ℕ)
uints [] = ok []
uints (uint n ∷ ts) = elim (uints ts) [ ok ns ↦ ok (n ∷ ns) | err e ↦ err e ]
uints (t ∷ ts) = err unexpected_reply

abbrev addresses : List Token → Result BalancerError (List (List ℕ))
addresses [] = ok []
addresses (address a ∷ ts) = elim (addresses ts) [ ok rest ↦ ok (a ∷ rest) | err e ↦ err e ]
addresses (t ∷ ts) = err unexpected_reply

-- `tokens.contains(&token)`.
abbrev pub has_token : List (List ℕ) → List ℕ → Bool
has_token [] token = false
has_token (t ∷ ts) token = text_eq t token || has_token ts token

module _ {u256 : U256} (eth : Ethers u256) where
  abbrev decode : List ParamType → List ℕ → Result BalancerError (List Token)
  decode asked raw = do
    tokens ← or_err (eth.decode_tokens (types asked) raw) undecodable_reply
    ok (fields tokens)

  unfoldable pub decode_u256 : List ℕ → Result BalancerError ℕ
  decode_u256 raw = do decoded ← decode (uint_type 256 ∷ []) raw; as_uint (entry 0 decoded)

  unfoldable pub decode_bool : List ℕ → Result BalancerError Bool
  decode_bool raw = do decoded ← decode (bool_type ∷ []) raw; as_bool (entry 0 decoded)

  unfoldable pub decode_u256_array : List ℕ → Result BalancerError (List ℕ)
  decode_u256_array raw = do
    decoded ← decode (array_type (uint_type 256) ∷ []) raw
    values ← as_array (entry 0 decoded)
    uints values

  unfoldable pub decode_pool_token_info : List ℕ → Result BalancerError (List (List ℕ) × List ℕ)
  decode_pool_token_info raw = do
    let token_info = tuple_type (types (uint_type 8 ∷ address_type ∷ bool_type ∷ []))
    decoded ←
        decode
          (array_type address_type
            ∷ array_type token_info
            ∷ array_type (uint_type 256)
            ∷ array_type (uint_type 256)
            ∷ [])
          raw
    token_array ← as_array (entry 0 decoded)
    tokens ← addresses token_array
    balance_array ← as_array (entry 2 decoded)
    balances ← uints balance_array
    if length tokens == length balances then ok (tokens, balances) else err lengths_differ

-- `value.strip_prefix("0x")`.
abbrev after_0x : Text → Option Text
after_0x (c ∷ d ∷ s) = if c == b'0' && d == b'x' then some s else none
after_0x s = none

abbrev query_signature : BalancerSwapKind → Text
query_signature exact_in =
    text "querySwapSingleTokenExactIn(address,address,address,uint256,address,bytes)"
query_signature exact_out =
    text "querySwapSingleTokenExactOut(address,address,address,uint256,address,bytes)"

module _ (hex : Hex) {u256 : U256} (eth : Ethers u256) where
  unfoldable pub encode_query_swap : BalancerSwapRequest → List ℕ → Result BalancerError Text
  encode_query_swap req sender = do
    pool ← parse_address eth req.pool (text "pool")
    token_in ← parse_address eth req.token_in (text "token_in")
    token_out ← parse_address eth req.token_out (text "token_out")
    amount ← amount eth req
    ok (
        encode_call hex eth (selector hex eth (query_signature req.swap_kind)) (
          address pool
          ∷ address token_in
          ∷ address token_out
          ∷ uint amount
          ∷ address sender
          ∷ dynamic_bytes []
          ∷ []))

  unfoldable pub parse_calldata : Text → Result BalancerError (List ℕ)
  parse_calldata value = do
    digits ← or_err (after_0x value) bad_calldata
    or_err (hex.decode digits) bad_calldata
