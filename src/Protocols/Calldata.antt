-- ===== src/Protocols/Calldata.antt =====
-- src/protocols/*/adapter.rs: `selector`, `encode_call`, the approval of a token and the other small
-- helpers that the adapters have in common.
use agent_execution_platform.Prelude.{ℕ, zero, suc, Option, none, some, List, [], ◌∷◌, ◌++◌, take}
use agent_execution_platform.Prelude.Text.{Text, text}
use agent_execution_platform.Types.{BatchCall}
use agent_execution_platform.Crates.{
  ParamType, ParamTypes, no_types, and_types, Hex, U256, Ethers, Token, address, uint,
}

-- The list of types that is asked for.
abbrev pub types : List ParamType → ParamTypes
types [] = no_types
types (p ∷ ps) = and_types p (types ps)

abbrev pub entry : {A : Type 0} → ℕ → List A → Option A
entry n [] = none
entry zero (a ∷ rest) = some a
entry (suc n) (a ∷ rest) = entry n rest

-- `strategy_id.clone().or_else(…)`.
abbrev pub or_else : Option Text → Text → Option Text
or_else none label = some label
or_else (some t) label = some t

-- A call of a batch that sends no value.
abbrev pub call_to : {u256 : U256} → Ethers u256 → List ℕ → Text → BatchCall
call_to eth target calldata = record {
  target_contract = eth.print_address target;
  calldata = calldata;
  value = text "0";
}

module _ (hex : Hex) {u256 : U256} (eth : Ethers u256) where
  -- `ethers::utils::id` is the first four bytes of the digest of the signature, an ASCII text.
  abbrev pub selector : Text → List ℕ
  selector signature = take 4 (eth.keccak256 signature)

  unfoldable pub encode_call : List ℕ → List Token → Text
  encode_call selector tokens = text "0x" ++ hex.encode (selector ++ eth.encode_tokens tokens)

  unfoldable pub encode_erc20_approve : List ℕ → ℕ → Text
  encode_erc20_approve spender amount =
      encode_call (selector (text "approve(address,uint256)")) (address spender ∷ uint amount ∷ [])

  unfoldable pub encode_balance_of : List ℕ → Text
  encode_balance_of user = encode_call (selector (text "balanceOf(address)")) (address user ∷ [])
