-- ===== src/Tests/HexDigits.antt =====
-- Hexadecimal digits in earnest, for the runs.
use mathlib.Core.Path.{subst⁻¹}
use mathlib.Core.Option.{some-injective}
use agent_execution_platform.Prelude.{
  ap, ℕ, zero, suc, ◌+◌, ◌-◌, ◌*◌, ◌/◌, ◌%◌, ◌<◌, ◌≡◌, refl, true, false, Option-cases, inl, inr,
  ◌&&◌, Option, none, some, List, [], ◌∷◌, All, length, leb, ltb, ◌==◌, if◌then◌else◌, arith,
}
use agent_execution_platform.Prelude.Text.{Text, byte_len, utf8_len, strip_0x}
use agent_execution_platform.Prelude.Decimal.{all_hex, is_hex_digit}
use agent_execution_platform.Crates.{IsByte}

abbrev digit : ℕ → ℕ
digit n = if ltb n 10 then 48 + n else 87 + n

abbrev pub digit_value : ℕ → Option ℕ
digit_value c =
    if leb 48 c && leb c 57
    then some (c - 48)
    else if leb 97 c && leb c 102
    then some (c - 87)
    else if leb 65 c && leb c 70
    then some (c - 55)
    else none

unfoldable pub encode : List ℕ → Text
encode [] = []
encode (b ∷ bs) = digit (b / 16) ∷ digit (b % 16) ∷ encode bs

abbrev pair_of : Option ℕ → Option ℕ → Option (List ℕ) → Option (List ℕ)
pair_of (some h) (some l) (some bs) = some ((h * 16 + l) ∷ bs)
pair_of (some h) (some l) none = none
pair_of (some h) none o = none
pair_of none l o = none

unfoldable pub decode : Text → Option (List ℕ)
decode [] = some []
decode (c ∷ []) = none
decode (c ∷ d ∷ t) = pair_of (digit_value c) (digit_value d) (decode t)

digit_value-digit : (n : ℕ) → n < 16 → digit_value (digit n) ≡ some n
digit_value-digit n h = ground arith

pub decode-encode : (b : List ℕ) → All IsByte b → decode (encode b) ≡ some b
unfolding encode decode
decode-encode [] h = refl
decode-encode (b ∷ bs) (small, h) = rw (
  digit_value-digit (b / 16) (omega arith),
  digit_value-digit (b % 16) (omega arith),
  decode-encode bs h,
  back b,
)
  where
    back : (b : ℕ) → b / 16 * 16 + b % 16 ≡ b
    back b = omega arith

digit_is_short : (c n : ℕ) → digit_value c ≡ some n → utf8_len c ≡ 1
digit_is_short c n h = ground arith

pair_of-some :
    (h l : Option ℕ) (o : Option (List ℕ)) (b : List ℕ)
    → pair_of h l o ≡ some b
    → (x y : ℕ) × (bs : List ℕ) × (h ≡ some x)
      × (l ≡ some y)
      × (o ≡ some bs)
      × (b ≡ (x * 16 + y) ∷ bs)
pair_of-some (some x) (some y) (some bs) b e = (x, y, bs, refl, refl, refl, ground arith)
pair_of-some (some x) (some y) none b e = absurd (ground arith)
pair_of-some (some x) none o b e = absurd (ground arith)
pair_of-some none l o b e = absurd (ground arith)

pub decode-len : (t : Text) (b : List ℕ) → decode t ≡ some b → byte_len t ≡ 2 * length b
unfolding decode
decode-len [] b h = ground arith
decode-len (c ∷ []) b h = absurd (ground arith)
decode-len (c ∷ d ∷ t) b h =
    let (x, y, bs, hx, hy, ho, e) = pair_of-some (digit_value c) (digit_value d) (decode t) b h in
    omega (arith, digit_is_short c x hx, digit_is_short d y hy, decode-len t bs ho, ap length e)

digit_value-small : (c n : ℕ) → digit_value c ≡ some n → n < 16
digit_value-small c n h = ground arith

-- Two digits are a byte.
pub decode-bytes :
    (t : Text) (b : List ℕ) → decode t ≡ some b → (length t ≡ 2 * length b) × All IsByte b
unfolding decode
decode-bytes [] b h = rw (← some-injective [] b h) (refl, tt)
decode-bytes (c ∷ []) b h = absurd (ground arith)
decode-bytes (c ∷ d ∷ t) b h =
    let (x, y, bs, hx, hy, ho, e) = pair_of-some (digit_value c) (digit_value d) (decode t) b h in
    let (len, bytes) = decode-bytes t bs ho in
    (
      omega (arith, len, ap length e),
      subst⁻¹ (All IsByte) e
          (omega (arith, digit_value-small c x hx, digit_value-small d y hy), bytes),
    )

-- Digits are ASCII.
pub encode-len : (b : List ℕ) → All IsByte b → byte_len (encode b) ≡ 2 * length b
encode-len b h = decode-len (encode b) b (decode-encode b h)

pub strip-encode : (b : List ℕ) → strip_0x (encode b) ≡ encode b
unfolding encode
strip-encode [] = refl
strip-encode (b ∷ bs) = rw digit_not_x
  where
    digit_not_x : (digit (b / 16) == b'0' && digit (b % 16) == b'x') ≡ false
    digit_not_x = ground arith

pub encode-nil : encode [] ≡ []
unfolding encode
encode-nil = refl

pair_of-all :
    (h l : Option ℕ) (o : Option (List ℕ)) (x y : ℕ) (b : List ℕ)
    → h ≡ some x
    → l ≡ some y
    → o ≡ some b
    → pair_of h l o ≡ some ((x * 16 + y) ∷ b)
pair_of-all h l o x y b p q r = rw (p, q, r) refl

hex_digit_value : (c : ℕ) → is_hex_digit c ≡ true → (n : ℕ) × (digit_value c ≡ some n)
hex_digit_value c h = elim (Option-cases (digit_value c)) [
  | inl e ↦ absurd (ground arith)
  | inr e ↦ e
]

pub decode_hex :
    (k : ℕ) (t : Text) → length t ≡ 2 * k → all_hex t ≡ true → (b : List ℕ) × (decode t ≡ some b)
unfolding decode
decode_hex zero [] e h = ([], refl)
decode_hex zero (c ∷ t) e h = absurd (omega arith)
decode_hex (suc k) [] e h = absurd (omega arith)
decode_hex (suc k) (c ∷ []) e h = absurd (omega arith)
decode_hex (suc k) (c ∷ d ∷ t) e h =
    let (x, p) = hex_digit_value c (ground arith) in
    let (y, q) = hex_digit_value d (ground arith) in
    let (b, r) = decode_hex k t (omega arith) (ground arith) in
    ((x * 16 + y) ∷ b, pair_of-all (digit_value c) (digit_value d) (decode t) x y b p q r)
