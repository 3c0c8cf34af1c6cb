-- ===== src/Prelude/Decimal.antt =====
-- Decimal digits, and what `str` does to them in the parsing of amounts.
use agent_execution_platform.Prelude.{
  ℕ, zero, suc, ◌+◌, ◌-◌, ◌*◌, ◌≡◌, refl, ◌∙◌, Bool, true, false, ◌&&◌, ◌||◌, List, [], ◌∷◌, ◌++◌,
  map, arith, length, replicate, leb, ◌==◌, if◌then◌else◌, Bool-cases, inl, inr,
}
use mathlib.Core.List.{reverse, reverse-cons, reverse-reverse}
use agent_execution_platform.Prelude.Text.{
  Text, text_eq, ascii_lower, is_whitespace, trim_start, trim,
}

-- `char::is_ascii_digit`.
abbrev pub is_ascii_digit : ℕ → Bool
is_ascii_digit c = leb b'0' c && leb c b'9'

abbrev pub all_digits : Text → Bool
all_digits [] = true
all_digits (c ∷ s) = is_ascii_digit c && all_digits s

-- Hexadecimal digits of either case.
abbrev pub is_hex_digit : ℕ → Bool
is_hex_digit c = is_ascii_digit c || (leb b'a' c && leb c b'f') || (leb b'A' c && leb c b'F')

abbrev pub all_hex : Text → Bool
all_hex [] = true
all_hex (c ∷ s) = is_hex_digit c && all_hex s

-- The number that digits write, behind the number `acc`.
abbrev pub value_after : ℕ → Text → ℕ
value_after acc [] = acc
value_after acc (c ∷ s) = value_after (acc * 10 + (c - b'0')) s

abbrev pub dec_value : Text → ℕ
dec_value s = value_after 0 s

pub value_after-append :
    (n : ℕ) (s t : Text) → value_after n (s ++ t) ≡ value_after (value_after n s) t
value_after-append n [] t = refl
value_after-append n (c ∷ s) t = value_after-append (n * 10 + (c - b'0')) s t

-- `U256::exp10`.
abbrev pub exp10 : ℕ → ℕ
exp10 zero = 1
exp10 (suc k) = 10 * exp10 k

pub value_after-zeros : (n k : ℕ) → value_after n (replicate k b'0') ≡ n * exp10 k
value_after-zeros n zero = omega arith
value_after-zeros n (suc k) = value_after-zeros (n * 10 + 0) k ∙ omega arith

-- What stands in front is moved up by the digits that follow.
pub value_after_lem : (n : ℕ) (s : Text) → value_after n s ≡ n * exp10 (length s) + dec_value s
value_after_lem n [] = omega arith
value_after_lem n (c ∷ s) =
    omega (arith, value_after_lem (n * 10 + (c - b'0')) s, value_after_lem (0 * 10 + (c - b'0')) s)

pub all_digits-append :
    (s t : Text) → all_digits s ≡ true → all_digits t ≡ true → all_digits (s ++ t) ≡ true
all_digits-append [] t p q = q
all_digits-append (c ∷ s) t p q = ground (arith, all_digits-append s t)

pub all_digits-zeros : (k : ℕ) → all_digits (replicate k b'0') ≡ true
all_digits-zeros zero = refl
all_digits-zeros (suc k) = all_digits-zeros k

-- `trim_start_matches('0')`.
abbrev pub trim_zeros : Text → Text
trim_zeros [] = []
trim_zeros (c ∷ s) = if c == b'0' then trim_zeros s else c ∷ s

pub dec_value-trim_zeros : (s : Text) → dec_value (trim_zeros s) ≡ dec_value s
dec_value-trim_zeros [] = refl
dec_value-trim_zeros (c ∷ s) = elim (Bool-cases (c == b'0')) [
  | inl e ↦ rw (e, zero_digit c e) (dec_value-trim_zeros s)
  | inr e ↦ rw e refl
]
  where
    zero_digit : (c : ℕ) → (c == b'0') ≡ true → c ≡ b'0'
    zero_digit c e = ground arith

pub all_digits-trim_zeros : (s : Text) → all_digits s ≡ true → all_digits (trim_zeros s) ≡ true
all_digits-trim_zeros [] h = refl
all_digits-trim_zeros (c ∷ s) h = ground (arith, all_digits-trim_zeros s)

-- `split('.')` and the like: the parts between the characters `sep`, the first apart.
abbrev pub split : ℕ → Text → Text × List Text
split sep [] = ([], [])
split sep (c ∷ s) =
    let (part, parts) = split sep s in if c == sep then ([], part ∷ parts) else (c ∷ part, parts)

-- `eq_ignore_ascii_case`.
abbrev pub eq_ignore_ascii_case : Text → Text → Bool
eq_ignore_ascii_case s t = text_eq (map ascii_lower s) (map ascii_lower t)

-- `to_uppercase`, on ASCII letters and on the characters outside ASCII whose upper case is in ASCII;
-- others are left alone: they have an upper case with a character outside ASCII, or none.
abbrev upper_char : ℕ → Text
upper_char c =
    if leb b'a' c && leb c b'z'
    then (c - 32) ∷ []
    else if c == 0x131
    then b'I' ∷ []
    else if c == 0x17f
    then b'S' ∷ []
    else if c == 0xdf
    then b'S' ∷ b'S' ∷ []
    else if c == 0xfb00
    then b'F' ∷ b'F' ∷ []
    else if c == 0xfb01
    then b'F' ∷ b'I' ∷ []
    else if c == 0xfb02
    then b'F' ∷ b'L' ∷ []
    else if c == 0xfb03
    then b'F' ∷ b'F' ∷ b'I' ∷ []
    else if c == 0xfb04
    then b'F' ∷ b'F' ∷ b'L' ∷ []
    else if c == 0xfb05 || c == 0xfb06
    then b'S' ∷ b'T' ∷ []
    else c ∷ []

unfoldable pub to_uppercase : Text → Text
to_uppercase [] = []
to_uppercase (c ∷ s) = upper_char c ++ to_uppercase s

digit_is_no_space : (c : ℕ) → is_ascii_digit c ≡ true → is_whitespace c ≡ false
unfolding is_whitespace
digit_is_no_space c h = ground arith

trim_start_digits : (s : Text) → all_digits s ≡ true → trim_start s ≡ s
unfolding trim_start
trim_start_digits [] h = refl
trim_start_digits (c ∷ s) h = rw (digit_is_no_space c (ground arith), trim_start) refl

all_digits-reverse : (s : Text) → all_digits s ≡ true → all_digits (reverse s) ≡ true
all_digits-reverse [] h = refl
all_digits-reverse (c ∷ s) h =
    rw (reverse-cons c s)
      (all_digits-append (reverse s) (c ∷ []) (all_digits-reverse s (ground arith)) (ground arith))

-- Digits have no white space around them.
pub trim_digits : (s : Text) → all_digits s ≡ true → trim s ≡ s
unfolding trim
trim_digits s h =
    rw (trim_start_digits s h, trim_start_digits (reverse s) (all_digits-reverse s h))
      (reverse-reverse s)
