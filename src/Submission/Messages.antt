-- ===== src/Submission/Messages.antt =====
-- src/worker/mod.rs: the minimum gas read out of a bundler's message.
use agent_execution_platform.Prelude.{
  ℕ, Bool, true, ◌||◌, ◌&&◌, Option, none, some, List, [], ◌∷◌, map, leb, ◌==◌, if◌then◌else◌,
}
use mathlib.Core.List.{reverse}
use agent_execution_platform.Prelude.Text.{
  Text, text, is_empty, is_whitespace, contains, starts_with, ascii_lower,
}
use agent_execution_platform.Crates.{U256}

-- `char::is_ascii_digit`.
abbrev pub is_digit : ℕ → Bool
is_digit c = leb b'0' c && leb c b'9'

abbrev pub all_digits : Text → Bool
all_digits [] = true
all_digits (c ∷ s) = is_digit c && all_digits s

-- A quotation mark, an apostrophe, a full stop or a closing bracket.
abbrev pub is_edge : ℕ → Bool
is_edge c = c == 0x22 || c == 0x27 || c == 0x2e || c == 0x29

abbrev pub is_separator : ℕ → Bool
is_separator c = c == 0x3a || c == 0x2c || c == 0x3b || is_whitespace c

abbrev trim_edges_start : Text → Text
trim_edges_start [] = []
trim_edges_start (c ∷ s) = if is_edge c then trim_edges_start s else c ∷ s

-- `trim_matches`.
abbrev pub trim_edges : Text → Text
trim_edges s = reverse (trim_edges_start (reverse (trim_edges_start s)))

-- `split`, with the piece that is being read, backwards.
abbrev pub split_from : Text → Text → List Text
split_from piece [] = reverse piece ∷ []
split_from piece (c ∷ s) =
    if is_separator c then reverse piece ∷ split_from [] s else split_from (c ∷ piece) s

abbrev pub after_0x : Text → Option Text
after_0x [] = none
after_0x (c ∷ []) = none
after_0x (c ∷ d ∷ s) = if c == b'0' && (d == b'x' || d == b'X') then some s else none

unfoldable pub parse_u256_token : U256 → Text → Option ℕ
parse_u256_token u256 token =
    let trimmed = trim_edges token in
    if is_empty trimmed then none else elim (after_0x trimmed) [
      | some digits ↦ u256.from_str_radix_16 digits
      | none ↦ if all_digits trimmed then u256.from_dec_str trimmed else none
    ]

-- `filter_map(parse_u256_token)` and then `next`, or `next_back`.
abbrev pub tokens : U256 → List Text → List ℕ
tokens u256 [] = []
tokens u256 (t ∷ ts) = elim (parse_u256_token u256 t) [
  | some n ↦ n ∷ tokens u256 ts
  | none ↦ tokens u256 ts
]

abbrev pub first : List ℕ → Option ℕ
first [] = none
first (n ∷ ns) = some n

abbrev pub last : List ℕ → Option ℕ
last [] = none
last (n ∷ []) = some n
last (n ∷ m ∷ ns) = last (m ∷ ns)

-- The text from the last place on where `p` stands in its lower-case form: `rfind` and the slice.
abbrev pub from_last : Text → Text → Option Text
from_last p [] = none
from_last p (c ∷ s) = elim (from_last p s) [
  | some found ↦ some found
  | none ↦ if starts_with p (map ascii_lower (c ∷ s)) then some (c ∷ s) else none
]

abbrev pub or_last : Option ℕ → List ℕ → Option ℕ
or_last (some n) ns = some n
or_last none ns = last ns

unfoldable pub parse_required_pre_verification_gas : U256 → Text → Option ℕ
parse_required_pre_verification_gas u256 error =
    if contains (text "preverificationgas is too low") (map ascii_lower error)
    then or_last
        (elim (from_last (text "minimum") error) [
          | some rest ↦ first (tokens u256 (split_from [] rest))
          | none ↦ none
        ])
        (tokens u256 (split_from [] error))
    else none
