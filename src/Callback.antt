-- ===== src/Callback.antt =====
-- src/api/services/mod.rs: the validation of a callback URL. The parsers of URLs and of addresses
-- are parameters.
pub mod Blocks
pub mod Ranges
pub mod Accepted
use agent_execution_platform.Prelude.{
  ℕ, ◌+◌, ◌*◌, ◌/◌, ◌%◌, ◌<◌, ◌≡◌, Bool, true, false, not, ◌&&◌, ◌||◌, Option, none, some, List, [],
  ◌∷◌, map, ltb, leb, ◌==◌, if◌then◌else◌,
}
use mathlib.Core.List.{reverse}
use agent_execution_platform.Prelude.Text.{
  Text, text, text_eq, is_empty, byte_len, starts_with, trim, ascii_lower,
}
use agent_execution_platform.Prelude.Results.{Result, ok, err, or_err, fail_if, ◌>>=◌, ◌>>◌}

-- `std::net::IpAddr`: four octets, or the eight 16-bit segments.
pub data IpAddr : Type 0 where
  v4 : ℕ → ℕ → ℕ → ℕ → IpAddr
  v6 : ℕ → ℕ → ℕ → ℕ → ℕ → ℕ → ℕ → ℕ → IpAddr

-- Octets are of 8 bits and segments of 16.
abbrev pub InRange : IpAddr → Type 0
InRange (v4 a b c d) = (a < 256) × (b < 256) × (c < 256) × (d < 256)
InRange (v6 s0 s1 s2 s3 s4 s5 s6 s7) =
    (s0 < 0x1_0000)
    × (s1 < 0x1_0000)
    × (s2 < 0x1_0000)
    × (s3 < 0x1_0000)
    × (s4 < 0x1_0000)
    × (s5 < 0x1_0000)
    × (s6 < 0x1_0000)
    × (s7 < 0x1_0000)

-- `reqwest::Url`, its parts that the program reads.
pub record Url : Type 0 where
  pub scheme : Text
  pub username : Text
  pub password : Option Text
  pub fragment : Option Text
  pub host_str : Option Text
  pub href : Text

pub record UrlParser : Type 0 where
  pub parse : Text → Option Url
  pub parse_ip : Text → Option IpAddr
  pub in_range : (t : Text) (ip : IpAddr) → parse_ip t ≡ some ip → InRange ip

unfoldable pub is_non_public_v4 : ℕ → ℕ → ℕ → Bool
is_non_public_v4 a b c =
    a == 0
    || a == 10
    || a == 127
    || (a == 100 && (leb 64 b && leb b 127))
    || (a == 169 && b == 254)
    || (a == 172 && (leb 16 b && leb b 31))
    || (a == 192 && b == 168)
    || (a == 192 && b == 0 && c == 0)
    || (a == 192 && b == 0 && c == 2)
    || (a == 198 && (b == 18 || b == 19))
    || (a == 198 && b == 51 && c == 100)
    || (a == 203 && b == 0 && c == 113)
    || leb 224 a

-- `Ipv6Addr::to_ipv4`: an IPv4-compatible or IPv4-mapped address.
abbrev pub is_embedded : ℕ → ℕ → ℕ → ℕ → ℕ → ℕ → Bool
is_embedded s0 s1 s2 s3 s4 s5 =
    s0 == 0 && s1 == 0 && s2 == 0 && s3 == 0 && s4 == 0 && (s5 == 0 || s5 == 0xffff)

-- A mask that keeps the high bits of a segment is a division and a multiplication. The unspecified
-- and the loopback address are embedded ones, so their own tests come too late to matter.
unfoldable pub is_non_public_callback_ip : IpAddr → Bool
unfolding is_non_public_v4
is_non_public_callback_ip (v4 a b c d) = is_non_public_v4 a b c
is_non_public_callback_ip (v6 s0 s1 s2 s3 s4 s5 s6 s7) =
    if is_embedded s0 s1 s2 s3 s4 s5
    then is_non_public_v4 (s6 / 256) (s6 % 256) (s7 / 256)
    else (s0 == 0
        && s1 == 0
        && s2 == 0
        && s3 == 0
        && s4 == 0
        && s5 == 0
        && s6 == 0
        && (s7 == 0 || s7 == 1))
      || s0 / 0x200 * 0x200 == 0xfc00
      || s0 / 0x40 * 0x40 == 0xfe80
      || s0 / 0x100 * 0x100 == 0xff00
      || (s0 == 0x2001 && s1 == 0x0db8)

pub data CallbackError : Type 0 where
  too_long invalid_url not_https credentials fragment missing_host local_host non_public :
      CallbackError

abbrev pub ends_with : Text → Text → Bool
ends_with p s = starts_with (reverse p) (reverse s)

abbrev pub lower : Text → Text
lower s = map ascii_lower s

abbrev pub is_local : Text → Bool
is_local host =
    text_eq (lower host) (text "localhost") || ends_with (text ".localhost") (lower host)

-- `strip_prefix('[')` and `strip_suffix(']')`, or the host as it is.
abbrev pub unbracketed_from : Text → Text → Text
unbracketed_from host [] = host
unbracketed_from host (c ∷ s) = if c == b']' then reverse s else host

abbrev pub unbracketed : Text → Text
unbracketed [] = []
unbracketed (c ∷ s) = if c == b'[' then unbracketed_from (c ∷ s) (reverse s) else c ∷ s

abbrev pub is_none : {A : Type 0} → Option A → Bool
is_none none = true
is_none (some a) = false

abbrev pub names_non_public : Option IpAddr → Bool
names_non_public none = false
names_non_public (some ip) = is_non_public_callback_ip ip

module _ (urls : UrlParser) where
  -- The checks on the trimmed text.
  unfoldable pub check_url : Text → Result CallbackError Text
  check_url trimmed = do
    fail_if (ltb 2048 (byte_len trimmed)) too_long
    parsed ← or_err (urls.parse trimmed) invalid_url
    fail_if (not (text_eq parsed.scheme (text "https"))) not_https
    fail_if (not (is_empty parsed.username) || not (is_none parsed.password)) credentials
    fail_if (not (is_none parsed.fragment)) fragment
    host ← or_err parsed.host_str missing_host
    fail_if (is_local host) local_host
    fail_if (names_non_public (urls.parse_ip (unbracketed host))) non_public
    ok parsed.href

  unfoldable pub validate_callback_url : Option Text → Result CallbackError (Option Text)
  unfolding check_url
  validate_callback_url none = ok none
  validate_callback_url (some u) =
      if is_empty (trim u) then ok none else (do href ← check_url (trim u); ok (some href))
