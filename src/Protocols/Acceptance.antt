-- ===== src/Protocols/Acceptance.antt =====
-- The requests that the adapters of src/protocols compile, under the validation of
-- src/execution_engine/mod.rs.
use agent_execution_platform.Prelude.{
  ℕ, zero, suc, ◌≤◌, ◌≡◌, ◌↔◌, refl, ap, ◌∙◌, Bool, true, false, some, List, [], ◌∷◌, ◌++◌, All,
  All-append, length, length-append, length-take_le, take, arith,
}
use agent_execution_platform.Prelude.Text.{Text, text, is_empty, byte_len, trim}
use agent_execution_platform.Prelude.Results.{ok, or_err}
use agent_execution_platform.Types.{BatchCall, Chain, from_str_loose, ExecutionRequest}
use agent_execution_platform.Crates.{
  Hex, U256, Ethers, Token, IsByte, IsAddress, OfBytes, address, uint,
}
use agent_execution_platform.Engine.{validate}
use agent_execution_platform.Engine.Calls.{CallFits}
use agent_execution_platform.Engine.Validation.{CallsFit, BatchFits, validate_iff}
use agent_execution_platform.Protocols.Calldata.{selector, encode_call, encode_erc20_approve}

take_bytes : (n : ℕ) (b : List ℕ) → All IsByte b → All IsByte (take n b)
take_bytes zero b h = tt
take_bytes (suc n) [] h = tt
take_bytes (suc n) (x ∷ b) (p, h) = (p, take_bytes n b h)

-- What a request must still have for the engine, which the adapters leave open: its chain must be
-- spelled as the engine spells it and have a provider, and the agent's name must not be too long.
abbrev pub IsReady : (Chain → Bool) → Text → Text → Chain → Type 0
IsReady configured chain agent_id c =
    (from_str_loose chain ≡ some c) × (configured c ≡ true) × (byte_len agent_id ≤ 256)

-- The batches that the engine accepts.
abbrev pub BatchOk : Hex → List BatchCall → Type 0
BatchOk hex calls = (1 ≤ length calls) × (length calls ≤ 16) × BatchFits hex calls

module _ (hex : Hex) {u256 : U256} (eth : Ethers u256) where
  -- A call of an address with encoded arguments is one that the engine accepts.
  pub encode_call-CallFits :
      (target : List ℕ) (signature : Text) (tokens : List Token)
      → IsAddress target
      → All OfBytes tokens
      → CallFits hex
          (eth.print_address target)
          (encode_call hex eth (selector hex eth signature) tokens)
  unfolding encode_call
  encode_call-CallFits target signature tokens here fit =
      let (prefix, len) = eth.printed target here in
      let (long, bytes) = eth.digest signature in
      let front = take 4 (eth.keccak256 signature) in
      let encoded = eth.encode_tokens tokens in
      let whole =
        All-append IsByte front encoded (take_bytes 4 (eth.keccak256 signature) bytes)
          (eth.encoded_bytes tokens fit) in
      record {
        target_prefix = prefix;
        target_length = len;
        calldata_prefix = refl;
        selector = (
          front ++ encoded,
          ap hex.decode (hex.strip_encode (front ++ encoded))
              ∙ hex.decode_encode (front ++ encoded) whole,
          omega (
            arith,
            length-append front encoded,
            length-take_le 4 (eth.keccak256 signature) (omega (arith, long)),
          ),
        );
      }

  pub encode_erc20_approve-CallFits :
      (token spender : List ℕ) (amount : ℕ)
      → IsAddress token
      → IsAddress spender
      → CallFits hex (eth.print_address token) (encode_erc20_approve hex eth spender amount)
  unfolding encode_erc20_approve OfBytes
  encode_erc20_approve-CallFits token spender amount here there =
      encode_call-CallFits token (text "approve(address,uint256)")
        (address spender ∷ uint amount ∷ []) here (there, (tt, tt))

  -- An address that was read from a text.
  pub read-IsAddress :
      {E : Type 0} (t : Text) (e : E) (a : List ℕ)
      → or_err (eth.parse_address t) e ≡ ok a
      → IsAddress a
  read-IsAddress t e a h = eth.parsed t a (ground arith)

  -- A request for this agent on the chain of this label, with calls that fit.
  abbrev pub Made : Text → Text → ExecutionRequest → Type 0
  Made agent_id label out =
      (out.agent_id ≡ agent_id) × (out.chain ≡ label) × CallsFit hex out out.batch_calls

  -- Such a request, for an agent with a name, is accepted exactly if the rest holds.
  pub accepted_iff :
      (configured : Chain → Bool) (agent_id label : Text) (out : ExecutionRequest) (chain : Chain)
      → is_empty (trim agent_id) ≡ false
      → Made agent_id label out
      → (validate hex configured out ≡ ok chain) ↔ IsReady configured label agent_id chain
  accepted_iff configured agent_id label out chain named (agent, on, fit) =
      let accepted = validate_iff hex configured out chain in
      rw (← agent, ← on)
        (
          λ h. let a = accepted.0 h in (a.recognised, a.provided, a.short_name),
          λ (recognised, provided, short). accepted.1 (record {
            recognised = recognised;
            provided = provided;
            named = rw agent named;
            short_name = short;
            calls_fit = fit;
          }),
        )
