-- ===== src/Callback/Ranges.antt =====
-- src/api/services/mod.rs: the addresses that may be called back, IPv6 included, by their ranges.
use agent_execution_platform.Prelude.{
  ℕ, ◌+◌, ◌*◌, ◌/◌, ◌%◌, ◌<◌, ◌≡◌, refl, ◌∙◌, Bool, true, false, not, ◌&&◌, ◌||◌, ltb, ◌==◌,
  if◌then◌else◌, arith,
}
use mathlib.Core.Path.{subst}
use agent_execution_platform.Callback.{
  IpAddr, v4, v6, InRange, is_embedded, is_non_public_v4, is_non_public_callback_ip,
}
use agent_execution_platform.Callback.Blocks.{
  number, in_any, non_public_blocks, is_non_public_callback_ip_lem,
}

abbrev pub outside : ℕ → ℕ → ℕ → Bool
outside first last n = ltb n first || ltb last n

-- An IPv4 address that is in none of the thirteen blocks. An IPv6 address that stands for an IPv4
-- address, if that one is in none; any other outside fc00::/7, fe80::/10, ff00::/8 and 2001:db8::/32.
abbrev pub is_public : IpAddr → Bool
is_public (v4 a b c d) = not (in_any (number a b c d) false non_public_blocks)
is_public (v6 s0 s1 s2 s3 s4 s5 s6 s7) =
    if s0 + s1 + s2 + s3 + s4 == 0 && (s5 == 0 || s5 == 0xffff)
    then not (in_any (s6 * 0x1_0000 + s7) false non_public_blocks)
    else outside 0xfc00 0xfdff s0
      && outside 0xfe80 0xfebf s0
      && ltb s0 0xff00
      && not (s0 == 0x2001 && s1 == 0x0db8)

not-not : (b : Bool) → b ≡ not (not b)
not-not true = refl
not-not false = refl

-- The four octets of the last two segments.
last_octets :
    (s6 s7 : ℕ)
    → s6 < 0x1_0000
    → s7 < 0x1_0000
    → number (s6 / 256) (s6 % 256) (s7 / 256) (s7 % 256) ≡ s6 * 0x1_0000 + s7
last_octets s6 s7 h6 h7 = omega arith

embedded_iff :
    (s0 s1 s2 s3 s4 s5 : ℕ)
    → is_embedded s0 s1 s2 s3 s4 s5 ≡ (s0 + s1 + s2 + s3 + s4 == 0 && (s5 == 0 || s5 == 0xffff))
embedded_iff s0 s1 s2 s3 s4 s5 = ground arith

embedded_v4 :
    (s6 s7 : ℕ)
    → s6 < 0x1_0000
    → s7 < 0x1_0000
    → is_non_public_v4 (s6 / 256) (s6 % 256) (s7 / 256)
      ≡ in_any (s6 * 0x1_0000 + s7) false non_public_blocks
unfolding is_non_public_callback_ip
embedded_v4 s6 s7 h6 h7 =
    subst
      (λ n. is_non_public_v4 (s6 / 256) (s6 % 256) (s7 / 256) ≡ in_any n false non_public_blocks)
      (last_octets s6 s7 h6 h7)
      (is_non_public_callback_ip_lem (s6 / 256) (s6 % 256) (s7 / 256) (s7 % 256) (omega arith)
        (omega arith) (omega arith) (omega arith))

choose :
    (e e' x x' y y' : Bool)
    → e ≡ e'
    → x ≡ x'
    → (e ≡ false → y ≡ not y')
    → (if e then x else y) ≡ not (if e' then not x' else y')
choose true e' x x' y y' p q r = rw (← p, ← q) (not-not x)
choose false e' x x' y y' p q r = rw (← p) (r refl)

unique_local : (s : ℕ) → (s / 0x200 * 0x200 == 0xfc00) ≡ not (outside 0xfc00 0xfdff s)
unique_local s = ground arith

link_local : (s : ℕ) → (s / 0x40 * 0x40 == 0xfe80) ≡ not (outside 0xfe80 0xfebf s)
link_local s = ground arith

multicast : (s : ℕ) → s < 0x1_0000 → (s / 0x100 * 0x100 == 0xff00) ≡ not (ltb s 0xff00)
multicast s h = ground arith

four : (a b c d : Bool) → (not a || not b || not c || d) ≡ not (a && b && c && not d)
four true true true d = not-not d
four true true false d = refl
four true false c d = refl
four false b c d = refl

-- Neither the unspecified nor the loopback address is left where no IPv4 address is embedded.
not_zero :
    (s0 s1 s2 s3 s4 s5 : ℕ) (p q : Bool)
    → is_embedded s0 s1 s2 s3 s4 s5 ≡ false
    → (s0 == 0 && s1 == 0 && s2 == 0 && s3 == 0 && s4 == 0 && s5 == 0 && p && q) ≡ false
not_zero s0 s1 s2 s3 s4 s5 p q h = ground arith

pub is_non_public-is_public :
    (ip : IpAddr) → InRange ip → is_non_public_callback_ip ip ≡ not (is_public ip)
unfolding is_non_public_callback_ip
is_non_public-is_public (v4 a b c d) (ha, hb, hc, hd) =
    is_non_public_callback_ip_lem a b c d ha hb hc hd
    ∙ not-not (in_any (number a b c d) false non_public_blocks)
is_non_public-is_public (v6 s0 s1 s2 s3 s4 s5 s6 s7) (h0, h1, h2, h3, h4, h5, h6, h7) =
    choose (is_embedded s0 s1 s2 s3 s4 s5) _ _ _ _ _ (embedded_iff s0 s1 s2 s3 s4 s5)
      (embedded_v4 s6 s7 h6 h7)
      (λ alone.
        rw
          (
            not_zero s0 s1 s2 s3 s4 s5 (s6 == 0) (s7 == 0 || s7 == 1) alone,
            unique_local s0,
            link_local s0,
            multicast s0 h0,
          )
          (four (outside 0xfc00 0xfdff s0) (outside 0xfe80 0xfebf s0) (ltb s0 0xff00)
            (s0 == 0x2001 && s1 == 0x0db8)))
