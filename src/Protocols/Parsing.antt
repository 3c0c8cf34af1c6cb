-- ===== src/Protocols/Parsing.antt =====
-- src/protocols/aave_v3/adapter.rs: what `parse_decimal_amount` reads, and as what number.
use mathlib.Core.Path.{subst}
use agent_execution_platform.Prelude.{
  ℕ, ◌+◌, ◌<◌, ◌≤◌, ◌≡◌, refl, ap, sym, ◌∙◌, ◌↔◌, ◌⊎◌, inl, inr, true, false, not, ◌&&◌, ◌||◌, List,
  [], ◌∷◌, ◌++◌, arith, ltb, ◌==◌, length, if◌then◌else◌, Bool-cases, ==_iff, append-nil,
}
use agent_execution_platform.Prelude.Text.{Text, text, is_empty, byte_len, starts_with, trim}
use agent_execution_platform.Prelude.Decimal.{all_digits, is_ascii_digit, split}
use agent_execution_platform.Prelude.Results.{ok, err, fail_if_ok, fail_if_passed}
use agent_execution_platform.Engine.Calls.{or_false, or_false_both}
use agent_execution_platform.Crates.{U256, u256_bound}
use agent_execution_platform.Protocols.Amounts.{
  amount_too_large, first_or_empty, scaled, read_digits, parse_parts, parse_decimal_amount,
}
use agent_execution_platform.Protocols.Decimals.{
  units, byte_len_digits, read_digits_lem, scaled_digits, dec_value-scaled,
}

-- `t` writes the amount `n`: digits, perhaps with a point and as many more digits as there are
-- decimals at most, and at least one digit.
pub record Writes (t : Text) (decimals n : ℕ) : Type 0 where
  pub whole : Text
  pub fractional : Text
  pub shape : ((t ≡ whole) × (fractional ≡ [])) ⊎ (t ≡ whole ++ (b'.' ∷ fractional))
  pub digits : (all_digits whole ≡ true) × (all_digits fractional ≡ true)
  pub not_empty : (is_empty whole && is_empty fractional) ≡ false
  pub places : length fractional ≤ decimals
  pub amount : n ≡ units whole fractional decimals
  pub fits : n < u256_bound

-- The parts behind the first, each with its separator in front.
abbrev rejoin : ℕ → List Text → Text
rejoin sep [] = []
rejoin sep (p ∷ ps) = sep ∷ (p ++ rejoin sep ps)

split_joined : (sep : ℕ) (t : Text) → t ≡ (split sep t).0 ++ rejoin sep (split sep t).1
split_joined sep [] = refl
split_joined sep (c ∷ t) = elim (Bool-cases (c == sep)) [
  | inl e ↦ rw (e, (==_iff c sep).0 e) (ap (◌∷◌ sep) (split_joined sep t))
  | inr e ↦ rw e (ap (◌∷◌ c) (split_joined sep t))
]

no_point : (c : ℕ) → is_ascii_digit c ≡ true → (c == b'.') ≡ false
no_point c h = ground arith

digits_split : (w : Text) → all_digits w ≡ true → split b'.' w ≡ (w, [])
digits_split [] h = refl
digits_split (c ∷ w) h = rw (digits_split w (ground arith), no_point c (ground arith)) refl

point_split :
    (w f : Text)
    → all_digits w ≡ true
    → all_digits f ≡ true
    → split b'.' (w ++ (b'.' ∷ f)) ≡ (w, f ∷ [])
point_split [] f hw hf = rw (digits_split f hf) refl
point_split (c ∷ w) f hw hf = rw (point_split w f (ground arith) hf, no_point c (ground arith)) refl

module _ (u256 : U256) where
  read_scaled :
      (w f : Text) (d : ℕ)
      → all_digits w ≡ true
      → all_digits f ≡ true
      → length f ≤ d
      → read_digits u256 (scaled u256 w f d)
        ≡ (if ltb (units w f d) u256_bound then ok (units w f d) else err amount_too_large)
  read_scaled w f d hw hf h =
      read_digits_lem u256 (scaled u256 w f d) (scaled_digits u256 w f d hw hf)
      ∙ ap (λ (n : ℕ). if ltb n u256_bound then ok n else err amount_too_large)
          (dec_value-scaled u256 w f d hf h)

  parse_parts_ok :
      (t w : Text) (parts : List Text) (d n : ℕ)
      → t ≡ w ++ rejoin b'.' parts
      → parse_parts u256 w parts d ≡ ok n
      → Writes t d n
  unfolding parse_parts
  parse_parts_ok t w parts d n joined h =
      let f = first_or_empty parts in
      let (p1, h1) = fail_if_ok (ltb 2 (1 + length parts)) _ _ h in
      let (p2, h2) = fail_if_ok (is_empty w && is_empty f) _ _ h1 in
      let (p3, h3) = fail_if_ok (not (all_digits w) || not (all_digits f)) _ _ h2 in
      let (p4, h4) = fail_if_ok (ltb d (byte_len f)) _ _ h3 in
      let (hw, hf) = or_false (all_digits w) (all_digits f) p3 in
      let short : length f ≤ d = within (byte_len f) (length f) (byte_len_digits f hf) p4 in
      let (fit, same) = accepted (units w f d) (sym (read_scaled w f d hw hf short) ∙ h4) in
      record {
        whole = w;
        fractional = f;
        shape = shape_of parts p1 joined;
        digits = (hw, hf);
        not_empty = p2;
        places = short;
        amount = same;
        fits = fit;
      }
    where
      within : (b l : ℕ) → b ≡ l → ltb d b ≡ false → l ≤ d
      within b l e h = ground arith

      accepted :
          (m : ℕ)
          → (if ltb m u256_bound then ok m else err amount_too_large) ≡ ok n
          → (n < u256_bound) × (n ≡ m)
      accepted m h = ground arith

      shape_of :
          (parts : List Text)
          → ltb 2 (1 + length parts) ≡ false
          → t ≡ w ++ rejoin b'.' parts
          → ((t ≡ w) × (first_or_empty parts ≡ [])) ⊎ (t ≡ w ++ (b'.' ∷ first_or_empty parts))
      shape_of [] p e = inl (e ∙ append-nil w, refl)
      shape_of (f ∷ []) p e = inr (e ∙ ap (λ s. w ++ (b'.' ∷ s)) (append-nil f))
      shape_of (f ∷ g ∷ parts) p e = absurd (ground arith)

  parts_accepted :
      (w f : Text) (parts : List Text) (d n : ℕ)
      → ltb 2 (1 + length parts) ≡ false
      → first_or_empty parts ≡ f
      → (all_digits w ≡ true) × (all_digits f ≡ true)
      → (is_empty w && is_empty f) ≡ false
      → length f ≤ d
      → n ≡ units w f d
      → n < u256_bound
      → parse_parts u256 w parts d ≡ ok n
  unfolding parse_parts
  parts_accepted w f parts d n few first (hw, hf) full short same fit = rw first (
      fail_if_passed (ltb 2 (1 + length parts)) _ _ few (
        fail_if_passed (is_empty w && is_empty f) _ _ full (
          fail_if_passed (not (all_digits w) || not (all_digits f)) _ _
            (or_false_both (all_digits w) (all_digits f) hw hf)
            (fail_if_passed (ltb d (byte_len f)) _ _
              (within (byte_len f) (length f) (byte_len_digits f hf) short)
              (read_scaled w f d hw hf short ∙ fitting (units w f d) same)))))
    where
      within : (b l : ℕ) → b ≡ l → l ≤ d → ltb d b ≡ false
      within b l e h = ground arith

      fitting : (m : ℕ) → n ≡ m → (if ltb m u256_bound then ok m else err amount_too_large) ≡ ok n
      fitting m e = ground arith

  -- What the caller has checked before it looks at the parts, and the parts.
  abbrev Accepts : Text → ℕ → ℕ → Type 0
  Accepts t d n =
      (is_empty t ≡ false)
      × (starts_with (text "-") t ≡ false)
      × (parse_parts u256 (split b'.' t).0 (split b'.' t).1 d ≡ ok n)

  parse_parts-Accepts : (t : Text) (d n : ℕ) → Writes t d n → Accepts t d n
  parse_parts-Accepts t d n h = elim h.shape [
    | inl (e, none_more) ↦ rw e (
      front_full h.whole
          (subst (λ f. (is_empty h.whole && is_empty f) ≡ false) none_more h.not_empty),
      no_minus h.whole h.digits.0,
      rw (digits_split h.whole h.digits.0) (
          parts_accepted h.whole h.fractional [] d n refl (sym none_more) h.digits h.not_empty
            h.places h.amount h.fits),
    )
    | inr e ↦ rw e (
      behind_full h.whole h.fractional,
      no_minus_behind h.whole h.fractional h.digits.0,
      rw (point_split h.whole h.fractional h.digits.0 h.digits.1) (
          parts_accepted h.whole h.fractional (h.fractional ∷ []) d n refl refl h.digits h.not_empty
            h.places h.amount h.fits),
    )
  ]
    where
      front_full : (w : Text) → (is_empty w && true) ≡ false → is_empty w ≡ false
      front_full [] h = h
      front_full (c ∷ w) h = refl

      behind_full : (w f : Text) → is_empty (w ++ (b'.' ∷ f)) ≡ false
      behind_full [] f = refl
      behind_full (c ∷ w) f = refl

      no_minus : (w : Text) → all_digits w ≡ true → starts_with (text "-") w ≡ false
      no_minus [] h = refl
      no_minus (c ∷ w) h = ground arith

      no_minus_behind :
          (w f : Text) → all_digits w ≡ true → starts_with (text "-") (w ++ (b'.' ∷ f)) ≡ false
      no_minus_behind [] f h = refl
      no_minus_behind (c ∷ w) f h = ground arith

  -- A decimal is accepted as the amount that it writes, and nothing else is accepted.
  pub parse_decimal_amount_lem :
      (raw : Text) (d n : ℕ) → (parse_decimal_amount u256 raw d ≡ ok n) ↔ Writes (trim raw) d n
  unfolding parse_decimal_amount parse_parts
  parse_decimal_amount_lem raw d n = (forward, backward)
    where
      forward : parse_decimal_amount u256 raw d ≡ ok n → Writes (trim raw) d n
      forward h =
          let (p1, h1) = fail_if_ok (is_empty (trim raw)) _ _ h in
          let (p2, h2) = fail_if_ok (starts_with (text "-") (trim raw)) _ _ h1 in
          parse_parts_ok (trim raw) (split b'.' (trim raw)).0 (split b'.' (trim raw)).1 d n
            (split_joined b'.' (trim raw)) h2

      backward : Writes (trim raw) d n → parse_decimal_amount u256 raw d ≡ ok n
      backward h =
          let (full, positive, parsed) = parse_parts-Accepts (trim raw) d n h in
          fail_if_passed (is_empty (trim raw)) _ _ full
            (fail_if_passed (starts_with (text "-") (trim raw)) _ _ positive parsed)
