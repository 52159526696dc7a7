-- ===== src/Prelude/Bits.antt =====
-- The binary digits of a number as Booleans, and what `bit_and` and `bit_or` do to each of them.
use Prim.Native.Nat.{
  ℕ, zero, suc, ◌+◌, ◌-◌, ◌*◌, ◌/◌, ◌%◌, ◌^◌, ◌≤◌, ◌<◌, min, max, bit_and, bit_or, digits,
  bit_and-bitwise, bit_or-bitwise,
}
use mathlib.Core.Path.{◌≡◌, refl, ap, ◌∙◌}
use mathlib.Core.Bool.{Bool, false, not, ◌&&◌, ◌||◌}
use native.Mathlib.Omega.{arith}
use native.Mathlib.Nat.{pow-suc}
use governance_iot_platform.Prelude.Tests.{◌==◌}

-- `digits` takes fuel: what is left over changes nothing, so that one digit can be split off.
module _ (z : ℕ → ℕ) (f : ℕ → ℕ → ℕ) (z_step : (b : ℕ) → z b ≡ z (b / 2) * 2 + f 0 (b % 2)) where
  spare : (n a b : ℕ) → a ≤ n → digits z f (suc n) a b ≡ digits z f n a b
  spare zero zero b h = refl
  spare zero (suc a) b h = absurd (omega arith)
  spare (suc n) zero b h = refl
  spare (suc n) (suc a) b h =
      ap (λ (t : ℕ). t * 2 + f (suc a % 2) (b % 2)) (spare n (suc a / 2) (b / 2) (omega arith))

  surplus : (k n a b : ℕ) → n ≡ k + a → digits z f n a b ≡ digits z f a a b
  surplus zero n a b e = let same : n ≡ a = omega arith in ap (λ (m : ℕ). digits z f m a b) same
  surplus (suc k) n a b e =
      let next : n ≡ suc (k + a) = omega arith in
      ap (λ (m : ℕ). digits z f m a b) next
      ∙ spare (k + a) a b (omega arith)
      ∙ surplus k (k + a) a b refl

  trimmed : (n a b : ℕ) → a ≤ n → digits z f n a b ≡ digits z f a a b
  trimmed n a b h = surplus (n - a) n a b (omega arith)

  digits_step :
      (a b : ℕ) → digits z f a a b ≡ digits z f (a / 2) (a / 2) (b / 2) * 2 + f (a % 2) (b % 2)
  digits_step zero b = z_step b
  digits_step (suc a) b =
      ap (λ (t : ℕ). t * 2 + f (suc a % 2) (b % 2)) (trimmed a (suc a / 2) (b / 2) (omega arith))

bit_and_step : (a b : ℕ) → bit_and a b ≡ bit_and (a / 2) (b / 2) * 2 + min (a % 2) (b % 2)
bit_and_step a b =
    rw (bit_and-bitwise a b, bit_and-bitwise (a / 2) (b / 2))
      (digits_step (λ b. zero) min (λ b. omega arith) a b)

bit_or_step : (a b : ℕ) → bit_or a b ≡ bit_or (a / 2) (b / 2) * 2 + max (a % 2) (b % 2)
bit_or_step a b =
    rw (bit_or-bitwise a b, bit_or-bitwise (a / 2) (b / 2))
      (digits_step (λ b. b) max (λ b. omega arith) a b)

-- Digit `j` of `m`, counted from the lowest.
pub test_bit : ℕ → ℕ → Bool
test_bit m zero = m % 2 == 1
test_bit m (suc j) = test_bit (m / 2) j

pub test_bit-bit_and : (a b j : ℕ) → test_bit (bit_and a b) j ≡ (test_bit a j && test_bit b j)
unfolding test_bit
test_bit-bit_and a b zero = ground (arith, bit_and_step a b)
test_bit-bit_and a b (suc j) = ap (λ t. test_bit t j) halved ∙ test_bit-bit_and (a / 2) (b / 2) j
  where
    halved : bit_and a b / 2 ≡ bit_and (a / 2) (b / 2)
    halved = omega (arith, bit_and_step a b)

pub test_bit-bit_or : (a b j : ℕ) → test_bit (bit_or a b) j ≡ (test_bit a j || test_bit b j)
unfolding test_bit
test_bit-bit_or a b zero = ground (arith, bit_or_step a b)
test_bit-bit_or a b (suc j) = ap (λ t. test_bit t j) halved ∙ test_bit-bit_or (a / 2) (b / 2) j
  where
    halved : bit_or a b / 2 ≡ bit_or (a / 2) (b / 2)
    halved = omega (arith, bit_or_step a b)

-- A number is 0 exactly when no digit of it is set; one direction is by the digits below its size.
pub test_bit-zero : (j : ℕ) → test_bit 0 j ≡ false
unfolding test_bit
test_bit-zero zero = refl
test_bit-zero (suc j) = test_bit-zero j

no_digits : (n a : ℕ) → digits (λ b. zero) min n a 0 ≡ 0
no_digits zero zero = refl
no_digits zero (suc a) = refl
no_digits (suc n) zero = refl
no_digits (suc n) (suc a) = omega (arith, no_digits n (suc a / 2))

bit_and-zero : (a : ℕ) → bit_and a 0 ≡ 0
bit_and-zero a = bit_and-bitwise a 0 ∙ no_digits a a

-- `m & (1 << i)` is 0 exactly when digit `i` is not set.
pub mask_test : (m i : ℕ) → (bit_and m (2 ^ i) == 0) ≡ not (test_bit m i)
unfolding test_bit
mask_test m zero = ground (arith, bit_and_step m 1, bit_and-zero (m / 2))
mask_test m (suc i) = rw masked (ground (arith, mask_test (m / 2) i))
  where
    masked : bit_and m (2 ^ suc i) ≡ bit_and (m / 2) (2 ^ i) * 2
    masked = omega (arith, bit_and_step m (2 ^ suc i), pow-suc 2 i, ap (bit_and (m / 2)) halved)
      where
        halved : 2 ^ suc i / 2 ≡ 2 ^ i
        halved = omega (arith, pow-suc 2 i)

pub test_bit-pow : (i j : ℕ) → test_bit (2 ^ i) j ≡ (i == j)
unfolding test_bit
test_bit-pow zero zero = refl
test_bit-pow zero (suc j) = ground (arith, test_bit-zero j)
test_bit-pow (suc i) zero = ground (arith, pow-suc 2 i)
test_bit-pow (suc i) (suc j) = ap (λ t. test_bit t j) halved ∙ test_bit-pow i j ∙ ground arith
  where
    halved : 2 ^ suc i / 2 ≡ 2 ^ i
    halved = omega (arith, pow-suc 2 i)

-- `~b` in a word of `n` bits is `2 ^ n - 1 - b`.
pub test_bit-complement :
    (n b j : ℕ) → b < 2 ^ n → j < n → test_bit (2 ^ n - 1 - b) j ≡ not (test_bit b j)
unfolding test_bit
test_bit-complement zero b j h k = absurd (omega arith)
test_bit-complement (suc n) b zero h k = ground (arith, pow-suc 2 n)
test_bit-complement (suc n) b (suc j) h k =
    ap (λ t. test_bit t j) halved
    ∙ test_bit-complement n (b / 2) j (omega (arith, pow-suc 2 n)) (omega arith)
  where
    halved : (2 ^ suc n - 1 - b) / 2 ≡ 2 ^ n - 1 - b / 2
    halved = omega (arith, pow-suc 2 n)
