-- ===== src/Protocols/Decimals.antt =====
-- src/protocols/aave_v3/adapter.rs: the digits that `parse_decimal_amount` puts together.
use agent_execution_platform.Prelude.{
  ℕ, zero, suc, ◌+◌, ◌-◌, ◌*◌, ◌≤◌, ◌≡◌, refl, ap, sym, ◌∙◌, inl, inr, true, some, none, [], ◌∷◌,
  ◌++◌, arith, ltb, length, replicate, if◌then◌else◌, Bool-cases,
}
use agent_execution_platform.Prelude.Text.{Text, text, is_empty, byte_len}
use agent_execution_platform.Prelude.Decimal.{
  all_digits, trim_zeros, exp10, dec_value, value_after, value_after-append, value_after-zeros,
  value_after_lem, all_digits-append, all_digits-zeros, dec_value-trim_zeros, all_digits-trim_zeros,
}
use agent_execution_platform.Prelude.Results.{ok, err, or_err}
use agent_execution_platform.Crates.{U256, u256_bound}
use agent_execution_platform.Protocols.Amounts.{amount_too_large, scaled, read_digits}

-- The number of smallest units that `whole.fractional` is, at a number of decimals.
abbrev pub units : Text → Text → ℕ → ℕ
units whole fractional decimals =
    dec_value whole * exp10 decimals + dec_value fractional * exp10 (decimals - length fractional)

pub byte_len_digits : (s : Text) → all_digits s ≡ true → byte_len s ≡ length s
byte_len_digits [] h = refl
byte_len_digits (c ∷ s) h = ground (arith, byte_len_digits s)

exp10-add : (a b : ℕ) → exp10 (a + b) ≡ exp10 a * exp10 b
exp10-add zero b = ap exp10 none_more ∙ omega arith
  where
    none_more : 0 + b ≡ b
    none_more = omega arith
exp10-add (suc a) b = ap exp10 one_more ∙ ap (λ (t : ℕ). 10 * t) (exp10-add a b) ∙ omega arith
  where
    one_more : suc a + b ≡ suc (a + b)
    one_more = omega arith

empty_value : (s : Text) → is_empty s ≡ true → dec_value s ≡ 0
empty_value [] h = refl
empty_value (c ∷ s) h = absurd (ground arith)

module _ (u256 : U256) where
  pub read_digits_lem :
      (t : Text)
      → all_digits t ≡ true
      → read_digits u256 t
        ≡ (if ltb (dec_value t) u256_bound then ok (dec_value t) else err amount_too_large)
  read_digits_lem t h = elim (Bool-cases (is_empty (trim_zeros t))) [
    | inl e ↦ rw (e, sym (dec_value-trim_zeros t), empty_value (trim_zeros t) e) refl
    | inr e ↦
        rw (e, u256.from_digits (trim_zeros t) (all_digits-trim_zeros t h), dec_value-trim_zeros t)
          (read (dec_value t))
  ]
    where
      read :
          (n : ℕ)
          → or_err (if ltb n u256_bound then some n else none) amount_too_large
            ≡ (if ltb n u256_bound then ok n else err amount_too_large)
      read n = ground arith

  pub scaled_digits :
      (w f : Text) (d : ℕ)
      → all_digits w ≡ true
      → all_digits f ≡ true
      → all_digits (scaled u256 w f d) ≡ true
  scaled_digits w f d hw hf =
      all_digits-append (front w ++ f) _ (all_digits-append (front w) f (front_digits w hw) hf)
        (all_digits-zeros (d - byte_len f))
    where
      front : Text → Text
      front w = if is_empty w then text "0" else w

      front_digits : (w : Text) → all_digits w ≡ true → all_digits (front w) ≡ true
      front_digits [] h = refl
      front_digits (c ∷ w) h = h

  pub dec_value-scaled :
      (w f : Text) (d : ℕ)
      → all_digits f ≡ true
      → length f ≤ d
      → dec_value (scaled u256 w f d) ≡ units w f d
  dec_value-scaled w f d hf h =
      let k = d - length f in
      let front = if is_empty w then text "0" else w in
      rw (byte_len_digits f hf) (
        value_after-append 0 (front ++ f) (replicate k b'0')
        ∙ value_after-zeros (value_after 0 (front ++ f)) k
        ∙ ap (λ (t : ℕ). t * exp10 k)
            (value_after-append 0 front f
              ∙ value_after_lem (value_after 0 front) f
              ∙ ap (λ (t : ℕ). t * exp10 (length f) + dec_value f) (front_value w))
        ∙ multiplied (dec_value w) (dec_value f) (exp10 (length f)) (exp10 k) (exp10 d) powers)
    where
      front_value : (w : Text) → value_after 0 (if is_empty w then text "0" else w) ≡ dec_value w
      front_value [] = refl
      front_value (c ∷ w) = refl

      parts : d ≡ length f + (d - length f)
      parts = omega arith

      powers : exp10 d ≡ exp10 (length f) * exp10 (d - length f)
      powers = ap exp10 parts ∙ exp10-add (length f) (d - length f)

      multiplied : (a b p q r : ℕ) → r ≡ p * q → (a * p + b) * q ≡ a * r + b * q
      multiplied a b p q r e = omega (arith, ap (λ (t : ℕ). a * t) e)
