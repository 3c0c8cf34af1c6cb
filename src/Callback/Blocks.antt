-- ===== src/Callback/Blocks.antt =====
-- src/api/services/mod.rs: the addresses that are refused, as the address blocks that they are.
use agent_execution_platform.Prelude.{
  ℕ, ◌+◌, ◌*◌, ◌/◌, ◌<◌, ◌≡◌, Bool, false, ◌&&◌, ◌||◌, List, [], ◌∷◌, leb, ◌==◌, arith,
}
use agent_execution_platform.Callback.{v4, is_non_public_v4, is_non_public_callback_ip}

-- An address as one number.
abbrev pub number : ℕ → ℕ → ℕ → ℕ → ℕ
number a b c d = ((a * 256 + b) * 256 + c) * 256 + d

-- `base/length`: the addresses that agree with `base` in the first `length` bits.
pub record Block : Type 0 where
  pub base : ℕ
  pub size : ℕ

abbrev pub in_block : ℕ → Block → Bool
in_block n block = n / block.size == block.base / block.size

-- The blocks, in the order of the code's tests; a size is 2 to the bits that are free.
abbrev pub non_public_blocks : List Block
non_public_blocks =
    record { base = number 0 0 0 0; size = 16777216 }
    ∷ record { base = number 10 0 0 0; size = 16777216 }
    ∷ record { base = number 127 0 0 0; size = 16777216 }
    ∷ record { base = number 100 64 0 0; size = 4194304 }
    ∷ record { base = number 169 254 0 0; size = 65536 }
    ∷ record { base = number 172 16 0 0; size = 1048576 }
    ∷ record { base = number 192 168 0 0; size = 65536 }
    ∷ record { base = number 192 0 0 0; size = 256 }
    ∷ record { base = number 192 0 2 0; size = 256 }
    ∷ record { base = number 198 18 0 0; size = 131072 }
    ∷ record { base = number 198 51 100 0; size = 256 }
    ∷ record { base = number 203 0 113 0; size = 256 }
    ∷ record { base = number 224 0 0 0; size = 536870912 }
    ∷ []

-- The blocks joined, the first test first.
abbrev pub in_any : ℕ → Bool → List Block → Bool
in_any n before [] = before
in_any n before (block ∷ blocks) = in_any n (before || in_block n block) blocks

module _ (a b c d : ℕ) (ha : a < 256) (hb : b < 256) (hc : c < 256) (hd : d < 256) where
  first_octet : (k : ℕ) → k < 256 → (number a b c d / 16777216 == k) ≡ (a == k)
  first_octet k hk = ground arith

  two_octets :
      (k l : ℕ) → k < 256 → l < 256 → (number a b c d / 65536 == k * 256 + l) ≡ (a == k && b == l)
  two_octets k l hk hl = ground arith

  three_octets :
      (k l m : ℕ)
      → k < 256
      → l < 256
      → m < 256
      → (number a b c d / 256 == (k * 256 + l) * 256 + m) ≡ (a == k && b == l && c == m)
  three_octets k l m hk hl hm = ground arith

  shared : (number a b c d / 4194304 == 401) ≡ (a == 100 && (leb 64 b && leb b 127))
  shared = ground arith

  private_172 : (number a b c d / 1048576 == 2753) ≡ (a == 172 && (leb 16 b && leb b 31))
  private_172 = ground arith

  benchmarks : (number a b c d / 131072 == 25353) ≡ (a == 198 && (b == 18 || b == 19))
  benchmarks = ground arith

  multicast_and_above : (number a b c d / 536870912 == 7) ≡ leb 224 a
  multicast_and_above = ground arith

  -- An IPv4 address is refused exactly if it lies in one of the thirteen address blocks: this
  -- network, private, loopback, shared, link-local, protocol assignments, documentation, benchmarks,
  -- multicast and reserved.
  pub is_non_public_callback_ip_lem :
      is_non_public_callback_ip (v4 a b c d) ≡ in_any (number a b c d) false non_public_blocks
  unfolding is_non_public_callback_ip is_non_public_v4
  is_non_public_callback_ip_lem = rw (
    first_octet 0 (omega arith),
    first_octet 10 (omega arith),
    first_octet 127 (omega arith),
    shared,
    two_octets 169 254 (omega arith) (omega arith),
    private_172,
    two_octets 192 168 (omega arith) (omega arith),
    three_octets 192 0 0 (omega arith) (omega arith) (omega arith),
    three_octets 192 0 2 (omega arith) (omega arith) (omega arith),
    benchmarks,
    three_octets 198 51 100 (omega arith) (omega arith) (omega arith),
    three_octets 203 0 113 (omega arith) (omega arith) (omega arith),
    multicast_and_above,
  )
