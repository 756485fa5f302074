-- ===== src/Base/Bits.antt =====
-- Facts about `bit_xor` with a power of two, by which the allocator finds a buddy.
use Prim.Native.Nat.{
  ℕ, zero, suc, ◌+◌, ◌*◌, ◌/◌, ◌%◌, ◌^◌, ◌≤◌, bit_xor, digits, differ, bit_xor-bitwise,
}
use mathlib.Core.Path.{◌≡◌, refl, ◌∙◌}
use native.Mathlib.Nat.{pow-suc, mul_assoc}
use native.Mathlib.Omega.{arith}

abbrev xor_digits : ℕ → ℕ → ℕ → ℕ
xor_digits n a b = digits (λ b. b) differ n a b

-- Any fuel that reaches the first number gives the same digits.
xor_digits_steady : (n m a b : ℕ) → a ≤ n → a ≤ m → xor_digits n a b ≡ xor_digits m a b
xor_digits_steady zero zero a b h k = refl
xor_digits_steady zero (suc m) zero b h k = refl
xor_digits_steady zero (suc m) (suc a) b h k = absurd (omega arith)
xor_digits_steady (suc n) zero zero b h k = refl
xor_digits_steady (suc n) zero (suc a) b h k = absurd (omega arith)
xor_digits_steady (suc n) (suc m) zero b h k = refl
xor_digits_steady (suc n) (suc m) (suc a) b h k =
    omega (arith, xor_digits_steady n m (suc a / 2) (b / 2) (omega arith) (omega arith))

zero-bit_xor : (b : ℕ) → bit_xor 0 b ≡ b
zero-bit_xor b = bit_xor-bitwise 0 b

bit_xor-suc :
    (a b : ℕ) → bit_xor (suc a) b ≡ bit_xor (suc a / 2) (b / 2) * 2 + differ (suc a % 2) (b % 2)
bit_xor-suc a b = omega (
  arith,
  bit_xor-bitwise (suc a) b,
  bit_xor-bitwise (suc a / 2) (b / 2),
  xor_digits_steady a (suc a / 2) (suc a / 2) (b / 2) (omega arith) (omega arith),
)

bit_xor_halves : (a b : ℕ) → bit_xor a b ≡ bit_xor (a / 2) (b / 2) * 2 + differ (a % 2) (b % 2)
bit_xor_halves zero b = omega (arith, zero-bit_xor b, zero-bit_xor (b / 2))
bit_xor_halves (suc a) b = bit_xor-suc a b

-- One step of the recursion on digits, at numbers whose halves and last digits are known.
bit_xor_step :
    (n m a b x y : ℕ)
    → n / 2 ≡ a
    → m / 2 ≡ b
    → n % 2 ≡ x
    → m % 2 ≡ y
    → bit_xor n m ≡ bit_xor a b * 2 + differ x y
bit_xor_step n m a b x y ha hb hx hy = rw (← ha, ← hb, ← hx, ← hy) (bit_xor_halves n m)

differ-zero : (x : ℕ) → differ x 0 ≡ x
differ-zero zero = refl
differ-zero (suc x) = refl

bit_xor-zero_steady : (n a : ℕ) → a ≤ n → bit_xor a 0 ≡ a
bit_xor-zero_steady n zero h = zero-bit_xor 0
bit_xor-zero_steady zero (suc a) h = absurd (omega arith)
bit_xor-zero_steady (suc n) (suc a) h = ground (
  arith,
  bit_xor-suc a 0,
  differ-zero (suc a % 2),
  bit_xor-zero_steady n (suc a / 2) (omega arith),
)

bit_xor-zero : (a : ℕ) → bit_xor a 0 ≡ a
bit_xor-zero a = bit_xor-zero_steady a a (omega arith)

mul-two-pow : (q k : ℕ) → q * 2 ^ suc k ≡ q * 2 ^ k * 2
mul-two-pow q k = rw (pow-suc, ← mul_assoc)

bit_xor_double : (a k : ℕ) → bit_xor (a * 2 ^ suc k) (2 ^ suc k) ≡ bit_xor (a * 2 ^ k) (2 ^ k) * 2
bit_xor_double a k = omega (
  arith,
  bit_xor_step (a * 2 ^ suc k) (2 ^ suc k) (a * 2 ^ k) (2 ^ k) 0 0 (omega (arith, mul-two-pow a k))
      (omega (arith, pow-suc 2 k)) (omega (arith, mul-two-pow a k)) (omega (arith, pow-suc 2 k)),
)

-- At a multiple of `2 ^ k` the mask `2 ^ k` moves to the neighbouring multiple: up from an even
-- one, down from an odd one.
pub bit_xor_even : (q k : ℕ) → bit_xor (q * 2 * 2 ^ k) (2 ^ k) ≡ (q * 2 + 1) * 2 ^ k
bit_xor_even q zero = omega (
  arith,
  bit_xor_step (q * 2 * 1) 1 q 0 0 1 (omega arith) refl (omega arith) refl,
  bit_xor-zero q,
)
bit_xor_even q (suc k) =
    bit_xor_double (q * 2) k ∙ omega (arith, bit_xor_even q k, mul-two-pow (q * 2 + 1) k)

pub bit_xor_odd : (q k : ℕ) → bit_xor ((q * 2 + 1) * 2 ^ k) (2 ^ k) ≡ q * 2 * 2 ^ k
bit_xor_odd q zero = omega (
  arith,
  bit_xor_step ((q * 2 + 1) * 1) 1 q 0 1 1 (omega arith) refl (omega arith) refl,
  bit_xor-zero q,
)
bit_xor_odd q (suc k) =
    bit_xor_double (q * 2 + 1) k ∙ omega (arith, bit_xor_odd q k, mul-two-pow (q * 2) k)
