-- ===== src/Engine/Calls.antt =====
-- src/execution_engine/mod.rs: `validate_call_fields` accepts exactly the calls that fit.
use agent_execution_platform.Prelude.{
  ℕ, ◌*◌, ◌≤◌, ◌%◌, ◌≡◌, refl, Bool, true, false, not, ◌||◌, Option, none, some, List, [], ◌∷◌,
  arith, length, ltb, ◌==◌,
}
use agent_execution_platform.Prelude.Text.{Text, text, is_empty, byte_len, starts_with, strip_0x}
use agent_execution_platform.Prelude.Results.{ok, fail_if_ok, fail_if_passed}
use agent_execution_platform.Crates.{Hex}
use agent_execution_platform.Engine.{is_none, validate_call_fields}

pub or_false : (a b : Bool) → (not a || not b) ≡ false → (a ≡ true) × (b ≡ true)
or_false true true h = (refl, refl)
or_false true false h = absurd (ground arith)
or_false false b h = absurd (ground arith)

pub or_false_both : (a b : Bool) → a ≡ true → b ≡ true → (not a || not b) ≡ false
or_false_both a b p q = rw (p, q)

pub not-false : (a : Bool) → not a ≡ false → a ≡ true
not-false true h = refl
not-false false h = absurd (ground arith)

is_none-false : {A : Type 0} (o : Option A) → is_none o ≡ false → (a : A) × (o ≡ some a)
is_none-false none h = absurd (ground arith)
is_none-false (some a) h = (a, refl)

pub non_empty : {A : Type 0} (xs : List A) → 1 ≤ length xs → is_empty xs ≡ false
non_empty [] h = absurd (omega arith)
non_empty (x ∷ xs) h = refl

some_bytes : (t : Text) → 8 ≤ byte_len t → is_empty t ≡ false
some_bytes [] h = absurd (omega arith)
some_bytes (c ∷ t) h = refl

module _ (hex : Hex) where
  -- What a call must look like: an address of 42 characters with 0x, and calldata with 0x whose
  -- digits are those of at least four bytes, a function selector.
  pub record CallFits (target_contract calldata : Text) : Type 0 where
    pub target_prefix : starts_with (text "0x") target_contract ≡ true
    pub target_length : byte_len target_contract ≡ 42
    pub calldata_prefix : starts_with (text "0x") calldata ≡ true
    pub selector :
        (bytes : List ℕ) × (hex.decode (strip_0x calldata) ≡ some bytes) × (4 ≤ length bytes)

  pub call_accepted : (t c : Text) → validate_call_fields hex t c ≡ ok tt → CallFits t c
  unfolding validate_call_fields
  call_accepted t c h =
      let d = strip_0x c in
      let (p1, h1) = fail_if_ok (not (starts_with (text "0x") t) || not (byte_len t == 42)) _ _ h in
      let (p2, h2) = fail_if_ok (not (starts_with (text "0x") c)) _ _ h1 in
      let (p3, h3) = fail_if_ok (is_empty d) _ _ h2 in
      let (p4, h4) = fail_if_ok (not (byte_len d % 2 == 0)) _ _ h3 in
      let (p5, h5) = fail_if_ok (is_none (hex.decode d)) _ _ h4 in
      let (p6, h6) = fail_if_ok (ltb (byte_len d) 8) _ _ h5 in
      let (prefix, len) = or_false (starts_with (text "0x") t) (byte_len t == 42) p1 in
      let (bytes, e) = is_none-false (hex.decode d) p5 in
      record {
        target_prefix = prefix;
        target_length = len_42 (byte_len t) len;
        calldata_prefix = not-false (starts_with (text "0x") c) p2;
        selector = (bytes, e, four (byte_len d) (length bytes) p6 (hex.decode_len d bytes e));
      }
    where
      len_42 : (n : ℕ) → (n == 42) ≡ true → n ≡ 42
      len_42 n q = ground arith

      four : (n m : ℕ) → ltb n 8 ≡ false → n ≡ 2 * m → 4 ≤ m
      four n m q e = ground arith

  pub CallFits-accepted : (t c : Text) → CallFits t c → validate_call_fields hex t c ≡ ok tt
  unfolding validate_call_fields
  CallFits-accepted t c f =
      let d = strip_0x c in
      let (bytes, e, long) = f.selector in
      let len = hex.decode_len d bytes e in
      fail_if_passed (not (starts_with (text "0x") t) || not (byte_len t == 42)) _ _
        (or_false_both (starts_with (text "0x") t) (byte_len t == 42) f.target_prefix
          (len_42 (byte_len t) f.target_length))
        (fail_if_passed (not (starts_with (text "0x") c)) _ _ (rw f.calldata_prefix) (
          fail_if_passed (is_empty d) _ _
            (some_bytes d (long_text (byte_len d) (length bytes) len long))
            (fail_if_passed (not (byte_len d % 2 == 0)) _ _ (even (byte_len d) (length bytes) len) (
              fail_if_passed (is_none (hex.decode d)) _ _ (rw e) (
                fail_if_passed (ltb (byte_len d) 8) _ _
                  (not_short (byte_len d) (length bytes) len long) refl)))))
    where
      len_42 : (n : ℕ) → n ≡ 42 → (n == 42) ≡ true
      len_42 n q = ground arith

      long_text : (n m : ℕ) → n ≡ 2 * m → 4 ≤ m → 8 ≤ n
      long_text n m q h = omega arith

      even : (n m : ℕ) → n ≡ 2 * m → not (n % 2 == 0) ≡ false
      even n m q = ground arith

      not_short : (n m : ℕ) → n ≡ 2 * m → 4 ≤ m → ltb n 8 ≡ false
      not_short n m q h = ground arith
