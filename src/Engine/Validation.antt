-- ===== src/Engine/Validation.antt =====
-- src/execution_engine/mod.rs: `validate` accepts exactly the requests that its rules describe.
use agent_execution_platform.Prelude.{
  ℕ, ◌+◌, ◌≤◌, ◌≡◌, ◌↔◌, refl, ap, ◌∙◌, Bool, true, false, not, Option, none, some, List, [], ◌∷◌,
  arith, length, All, ltb,
}
use agent_execution_platform.Prelude.Text.{is_empty, byte_len, trim}
use agent_execution_platform.Prelude.Results.{
  Result, ok, err, or_err, map_err, ◌>>=◌, ◌>>◌, fail_if_ok, fail_if_passed,
}
use agent_execution_platform.Types.{Chain, from_str_loose, BatchCall, ExecutionRequest}
use mathlib.Core.Path.{subst}
use agent_execution_platform.Crates.{Hex}
use agent_execution_platform.Engine.{
  ValidationError, batch_call, single_call, validate_call_fields, validate_batch, validate_calls,
  validate,
}
use agent_execution_platform.Engine.Calls.{
  not-false, non_empty, CallFits, call_accepted, CallFits-accepted,
}

module _ (hex : Hex) where
  batch_call_ok : (i : ℕ) (r : Result _ (Unit {0})) → map_err (batch_call i) r ≡ ok tt → r ≡ ok tt
  batch_call_ok i (ok u) h = refl
  batch_call_ok i (err e) h = absurd (ground arith)

  single_call_ok : (r : Result _ (Unit {0})) → map_err single_call r ≡ ok tt → r ≡ ok tt
  single_call_ok (ok u) h = refl
  single_call_ok (err e) h = absurd (ground arith)

  bind_ok :
      {E : Type 0} (r : Result E (Unit {0})) {A : Type 0} (k : Result E A) {a : A}
      → (r >> k) ≡ ok a
      → (r ≡ ok tt) × (k ≡ ok a)
  bind_ok (ok u) k h = (refl, h)
  bind_ok (err e) k h = absurd (ground arith)

  -- Every call of a batch fits.
  abbrev pub BatchFits : List BatchCall → Type 0
  BatchFits calls = All (λ call. CallFits hex call.target_contract call.calldata) calls

  batch_accepted :
      (i : ℕ) (calls : List BatchCall) → validate_batch hex i calls ≡ ok tt → BatchFits calls
  unfolding validate_batch
  batch_accepted i [] h = tt
  batch_accepted i (call ∷ calls) h =
      let r = validate_call_fields hex call.target_contract call.calldata in
      let (first, rest) = bind_ok (map_err (batch_call i) r) (validate_batch hex (i + 1) calls) h in
      (
        call_accepted hex call.target_contract call.calldata (batch_call_ok i r first),
        batch_accepted (i + 1) calls rest,
      )

  BatchFits-accepted :
      (i : ℕ) (calls : List BatchCall) → BatchFits calls → validate_batch hex i calls ≡ ok tt
  unfolding validate_batch
  BatchFits-accepted i [] f = refl
  BatchFits-accepted i (call ∷ calls) (f, fs) = rw (
    CallFits-accepted hex call.target_contract call.calldata f,
    BatchFits-accepted (i + 1) calls fs,
  )

  -- What the calls of a request must be: one to sixteen of a batch, or the single call.
  abbrev pub CallsFit : ExecutionRequest → Option (List BatchCall) → Type 0
  CallsFit req (some calls) = (1 ≤ length calls) × (length calls ≤ 16) × BatchFits calls
  CallsFit req none = CallFits hex req.target_contract req.calldata

  calls_accepted :
      (req : ExecutionRequest) (batch : Option (List BatchCall))
      → validate_calls hex req batch ≡ ok tt
      → CallsFit req batch
  unfolding validate_calls
  calls_accepted req none h =
      let r = validate_call_fields hex req.target_contract req.calldata in
      call_accepted hex req.target_contract req.calldata (single_call_ok r h)
  calls_accepted req (some calls) h =
      let (p, h1) = fail_if_ok (is_empty calls) _ _ h in
      let (q, h2) = fail_if_ok (ltb 16 (length calls)) _ _ h1 in
      (one calls p, at_most (length calls) q, batch_accepted 0 calls h2)
    where
      one : {A : Type 0} (xs : List A) → is_empty xs ≡ false → 1 ≤ length xs
      one [] e = absurd (ground arith)
      one (x ∷ xs) e = omega arith

      at_most : (n : ℕ) → ltb 16 n ≡ false → n ≤ 16
      at_most n e = ground arith

  CallsFit-accepted :
      (req : ExecutionRequest) (batch : Option (List BatchCall))
      → CallsFit req batch
      → validate_calls hex req batch ≡ ok tt
  unfolding validate_calls
  CallsFit-accepted req none f = rw (CallFits-accepted hex req.target_contract req.calldata f)
  CallsFit-accepted req (some calls) (one, most, fit) =
      fail_if_passed (is_empty calls) _ _ (non_empty calls one) (
        fail_if_passed (ltb 16 (length calls)) _ _ (at_most (length calls) most)
          (BatchFits-accepted 0 calls fit))
    where
      at_most : (n : ℕ) → n ≤ 16 → ltb 16 n ≡ false
      at_most n e = ground arith

  -- The requests that a platform with these chains accepts.
  pub record IsAcceptable (configured : Chain → Bool) (req : ExecutionRequest) (chain : Chain)
      : Type 0 where
    pub recognised : from_str_loose req.chain ≡ some chain
    pub provided : configured chain ≡ true
    pub named : is_empty (trim req.agent_id) ≡ false
    pub short_name : byte_len req.agent_id ≤ 256
    pub calls_fit : CallsFit req req.batch_calls

  chain_ok :
      (o : Option Chain) {E A : Type 0} (e : E) (k : Chain → Result E A) {a : A}
      → (or_err o e >>= k) ≡ ok a
      → (c : Chain) × (o ≡ some c) × (k c ≡ ok a)
  chain_ok none e k h = absurd (ground arith)
  chain_ok (some c) e k h = (c, refl, h)

  ok_inj : {A : Type 0} {a b : A} → ◌≡◌ {A = Result ValidationError A} (ok a) (ok b) → a ≡ b
  ok_inj h = ground arith

  accepted :
      (configured : Chain → Bool) (req : ExecutionRequest) (chain : Chain)
      → validate hex configured req ≡ ok chain
      → IsAcceptable configured req chain
  unfolding validate
  accepted configured req chain h =
      let (c, found, h0) = chain_ok (from_str_loose req.chain) _ _ h in
      let (p1, h1) = fail_if_ok (not (configured c)) _ _ h0 in
      let (p2, h2) = fail_if_ok (is_empty (trim req.agent_id)) _ _ h1 in
      let (p3, h3) = fail_if_ok (ltb 256 (byte_len req.agent_id)) _ _ h2 in
      let (p4, h4) = bind_ok (validate_calls hex req req.batch_calls) _ h3 in
      let same = ok_inj h4 in
      record {
        recognised = found ∙ ap some same;
        provided = subst (λ c. configured c ≡ true) same (not-false (configured c) p1);
        named = p2;
        short_name = at_most (byte_len req.agent_id) p3;
        calls_fit = calls_accepted req req.batch_calls p4;
      }
    where
      at_most : (n : ℕ) → ltb 256 n ≡ false → n ≤ 256
      at_most n e = ground arith

  acceptable_accepted :
      (configured : Chain → Bool) (req : ExecutionRequest) (chain : Chain)
      → IsAcceptable configured req chain
      → validate hex configured req ≡ ok chain
  unfolding validate
  acceptable_accepted configured req chain a = rw (
    a.recognised,
    a.provided,
    a.named,
    at_most (byte_len req.agent_id) a.short_name,
    CallsFit-accepted req req.batch_calls a.calls_fit,
  )
    where
      at_most : (n : ℕ) → n ≤ 256 → ltb 256 n ≡ false
      at_most n e = ground arith

  -- A request is accepted for a chain exactly if that chain is the one that the request names and a
  -- provider is configured for it, the agent's name is not blank and has at most 256 bytes, and the
  -- batch has one to sixteen calls that all fit, or the single call fits where no batch is given.
  pub validate_iff :
      (configured : Chain → Bool) (req : ExecutionRequest) (chain : Chain)
      → (validate hex configured req ≡ ok chain) ↔ IsAcceptable configured req chain
  validate_iff configured req chain =
      (accepted configured req chain, acceptable_accepted configured req chain)
