-- ===== src/Tests/BigEndian.antt =====
-- Big-endian bytes in earnest, for the runs.
use agent_execution_platform.Prelude.{
  ℕ, zero, suc, ◌+◌, ◌*◌, ◌/◌, ◌%◌, ◌<◌, ◌≤◌, ◌≡◌, refl, ap, ◌∙◌, List, [], ◌∷◌, ◌++◌, All, length,
  take, replicate, length-append, arith,
}
use agent_execution_platform.Crates.{IsByte}

abbrev pub pow256 : ℕ → ℕ
pow256 zero = 1
pow256 (suc k) = 256 * pow256 k

unfoldable pub big_endian : ℕ → ℕ → List ℕ
big_endian zero n = []
big_endian (suc k) n = big_endian k (n / 256) ++ (n % 256 ∷ [])

abbrev pub bytes_value : ℕ → List ℕ → ℕ
bytes_value acc [] = acc
bytes_value acc (b ∷ bs) = bytes_value (acc * 256 + b) bs

pub big_endian-len : (k n : ℕ) → length (big_endian k n) ≡ k
unfolding big_endian
big_endian-len zero n = refl
big_endian-len (suc k) n =
    omega (arith, length-append (big_endian k (n / 256)) (n % 256 ∷ []), big_endian-len k (n / 256))

All-snoc : (bs : List ℕ) (b : ℕ) → All IsByte bs → IsByte b → All IsByte (bs ++ (b ∷ []))
All-snoc [] b h small = (small, tt)
All-snoc (c ∷ bs) b (first, h) small = (first, All-snoc bs b h small)

pub big_endian-bytes : (k n : ℕ) → All IsByte (big_endian k n)
unfolding big_endian
big_endian-bytes zero n = tt
big_endian-bytes (suc k) n =
    All-snoc (big_endian k (n / 256)) (n % 256) (big_endian-bytes k (n / 256)) (omega arith)

bytes_value-snoc :
    (acc : ℕ) (bs : List ℕ) (b : ℕ)
    → bytes_value acc (bs ++ (b ∷ [])) ≡ bytes_value acc bs * 256 + b
bytes_value-snoc acc [] b = refl
bytes_value-snoc acc (c ∷ bs) b = bytes_value-snoc (acc * 256 + c) bs b

pub bytes_value-big_endian : (k n : ℕ) → n < pow256 k → bytes_value 0 (big_endian k n) ≡ n
unfolding big_endian
bytes_value-big_endian zero n h = omega arith
bytes_value-big_endian (suc k) n h = omega (
  arith,
  bytes_value-snoc 0 (big_endian k (n / 256)) (n % 256),
  bytes_value-big_endian k (n / 256) (omega arith),
)

take_snoc : (m : ℕ) (bs : List ℕ) (b : ℕ) → m ≤ length bs → take m (bs ++ (b ∷ [])) ≡ take m bs
take_snoc zero bs b h = refl
take_snoc (suc m) [] b h = absurd (omega arith)
take_snoc (suc m) (c ∷ bs) b h = ap (◌∷◌ c) (take_snoc m bs b (omega arith))

-- The leading bytes of a number that needs only the last `j` of them.
pub leading_zeros :
    (j k n : ℕ) → k ≡ 16 + j → n < pow256 j → take 16 (big_endian k n) ≡ replicate 16 0
unfolding big_endian
leading_zeros zero k n e h = rw (e, n_zero n h)
  where
    n_zero : (n : ℕ) → n < 1 → n ≡ 0
    n_zero n h = omega arith
leading_zeros (suc j) zero n e h = absurd (omega arith)
leading_zeros (suc j) (suc k) n e h =
    take_snoc 16 (big_endian k (n / 256)) (n % 256) (omega (arith, big_endian-len k (n / 256)))
    ∙ leading_zeros j k (n / 256) (omega arith) (omega arith)
