-- ===== src/Base/Bits.antt =====
-- The operations of C on bits, as arithmetic: one mask of a single bit or of all low bits at a time.
use Prim.Native.Nat.{
  ℕ, zero, suc, ◌+◌, ◌-◌, ◌*◌, ◌/◌, ◌%◌, ◌^◌, ◌≤◌, ◌<◌, min, max, digits, bitwise, bit_and, bit_or,
  bit_xor, differ, bit_and-bitwise, bit_or-bitwise, bit_xor-bitwise,
}
use mathlib.Core.Path.{◌≡◌, refl, ap, ◌∙◌}
use native.Mathlib.Nat.{pow-suc, one-le-pow, div-div-eq-div-mul, mul_comm, div-add-mod'}
use native.Mathlib.Omega.{arith}

-- `bitwise` by its lowest digit, without the count that its recursion goes by.
module _ (z : ℕ → ℕ) (f : ℕ → ℕ → ℕ) (z_step : (b : ℕ) → z b ≡ z (b / 2) * 2 + f 0 (b % 2)) where
  enough_digits : (n m a b : ℕ) → a ≤ n → a ≤ m → digits z f n a b ≡ digits z f m a b
  enough_digits zero zero a b p q = refl
  enough_digits zero (suc m) zero b p q = refl
  enough_digits zero (suc m) (suc a) b p q = absurd (omega arith)
  enough_digits (suc n) zero zero b p q = refl
  enough_digits (suc n) zero (suc a) b p q = absurd (omega arith)
  enough_digits (suc n) (suc m) zero b p q = refl
  enough_digits (suc n) (suc m) (suc a) b p q =
      rw (enough_digits n m (suc a / 2) (b / 2) (omega arith) (omega arith))

  lowest_digit : (a b : ℕ) → bitwise z f a b ≡ bitwise z f (a / 2) (b / 2) * 2 + f (a % 2) (b % 2)
  lowest_digit zero b = z_step b
  lowest_digit (suc a) b =
      rw (enough_digits a (suc a / 2) (suc a / 2) (b / 2) (omega arith) (omega arith))

and_step : (a b : ℕ) → bit_and a b ≡ bit_and (a / 2) (b / 2) * 2 + min (a % 2) (b % 2)
and_step a b =
    rw (bit_and-bitwise a b, bit_and-bitwise (a / 2) (b / 2))
      (lowest_digit (λ _. 0) min (λ b. omega arith) a b)

or_step : (a b : ℕ) → bit_or a b ≡ bit_or (a / 2) (b / 2) * 2 + max (a % 2) (b % 2)
or_step a b =
    rw (bit_or-bitwise a b, bit_or-bitwise (a / 2) (b / 2))
      (lowest_digit (λ b. b) max (λ b. omega arith) a b)

differ_digits : (x y : ℕ) → x < 2 → y < 2 → differ x y ≡ (x + y) % 2
differ_digits zero y hx hy = omega arith
differ_digits (suc zero) zero hx hy = omega arith
differ_digits (suc zero) (suc y) hx hy = omega arith
differ_digits (suc (suc x)) y hx hy = absurd (omega arith)

xor_step : (a b : ℕ) → bit_xor a b ≡ bit_xor (a / 2) (b / 2) * 2 + (a % 2 + b % 2) % 2
xor_step a b =
    rw (bit_xor-bitwise a b, bit_xor-bitwise (a / 2) (b / 2))
      (lowest_digit (λ b. b) differ (λ b. omega arith) a b
        ∙ rw (differ_digits (a % 2) (b % 2) (omega arith) (omega arith)))

and_zero : (n a : ℕ) → a ≤ n → bit_and a 0 ≡ 0
and_zero n zero h = refl
and_zero zero (suc a) h = absurd (omega arith)
and_zero (suc n) (suc a) h = omega (arith, and_step (suc a) 0, and_zero n (suc a / 2) (omega arith))

or_zero : (n a : ℕ) → a ≤ n → bit_or a 0 ≡ a
or_zero n zero h = refl
or_zero zero (suc a) h = absurd (omega arith)
or_zero (suc n) (suc a) h = omega (arith, or_step (suc a) 0, or_zero n (suc a / 2) (omega arith))

xor_zero : (n a : ℕ) → a ≤ n → bit_xor a 0 ≡ a
xor_zero n zero h = refl
xor_zero zero (suc a) h = absurd (omega arith)
xor_zero (suc n) (suc a) h = omega (arith, xor_step (suc a) 0, xor_zero n (suc a / 2) (omega arith))

-- A power of two above 1 is even, and its half is the one below.
half_pow : (k : ℕ) → (2 ^ suc k / 2 ≡ 2 ^ k) × (2 ^ suc k % 2 ≡ 0)
half_pow k = (omega (arith, pow-suc 2 k), omega (arith, pow-suc 2 k))

-- Bit `k` of `a`, and `a` with that bit set or turned over.
abbrev pub bit : ℕ → ℕ → ℕ
bit k a = a / 2 ^ k % 2

bit-suc : (k a : ℕ) → bit (suc k) a ≡ bit k (a / 2)
bit-suc k a = rw (div-div-eq-div-mul a 2 (2 ^ k), pow-suc 2 k, mul_comm 2 (2 ^ k))

mod-suc : (k a : ℕ) → a % 2 ^ suc k ≡ a / 2 % 2 ^ k * 2 + a % 2
mod-suc k a =
    let same : a / 2 ^ suc k ≡ a / 2 / 2 ^ k =
      rw (div-div-eq-div-mul a 2 (2 ^ k), pow-suc 2 k, mul_comm 2 (2 ^ k)) in
    let whole : a / 2 / 2 ^ k * 2 ^ suc k + a % 2 ^ suc k ≡ a =
      rw (← same) (div-add-mod' a (2 ^ suc k)) in
    omega
      (arith, whole, div-add-mod' (a / 2) (2 ^ k), ap (λ (t : ℕ). a / 2 / 2 ^ k * t) (pow-suc 2 k))

pub and_one_bit : (k a : ℕ) → bit_and a (2 ^ k) ≡ bit k a * 2 ^ k
and_one_bit zero a = omega (arith, and_step a 1, and_zero (a / 2) (a / 2) (omega arith))
and_one_bit (suc k) a =
    let (half, even) = half_pow k in
    rw (and_step a (2 ^ suc k), half, even, and_one_bit k (a / 2), bit-suc k a, pow-suc 2 k)
      (omega arith)

pub or_one_bit : (k a : ℕ) → bit_or a (2 ^ k) ≡ a + (1 - bit k a) * 2 ^ k
or_one_bit zero a = omega (arith, or_step a 1, or_zero (a / 2) (a / 2) (omega arith))
or_one_bit (suc k) a =
    let (half, even) = half_pow k in
    rw (or_step a (2 ^ suc k), half, even, or_one_bit k (a / 2), bit-suc k a, pow-suc 2 k)
      (omega arith)

pub xor_one_bit : (k a : ℕ) → bit_xor a (2 ^ k) + 2 * (bit k a * 2 ^ k) ≡ a + 2 ^ k
xor_one_bit zero a = omega (arith, xor_step a 1, xor_zero (a / 2) (a / 2) (omega arith))
xor_one_bit (suc k) a =
    let (half, even) = half_pow k in
    rw (xor_step a (2 ^ suc k), half, even, bit-suc k a, pow-suc 2 k)
      (omega (arith, xor_one_bit k (a / 2)))

-- All bits below `k`.
pub and_low_bits : (k a : ℕ) → bit_and a (2 ^ k - 1) ≡ a % 2 ^ k
and_low_bits zero a = omega (arith, and_zero a a (omega arith))
and_low_bits (suc k) a =
    let half : (2 ^ suc k - 1) / 2 ≡ 2 ^ k - 1 = omega (arith, pow-suc 2 k) in
    let odd : (2 ^ suc k - 1) % 2 ≡ 1 = omega (arith, pow-suc 2 k, one-le-pow k 2) in
    rw (and_step a (2 ^ suc k - 1), half, odd, and_low_bits k (a / 2)) (omega (arith, mod-suc k a))

-- Two fields that do not overlap.
pub or_fields : (k a b : ℕ) → a < 2 ^ k → bit_or a (b * 2 ^ k) ≡ a + b * 2 ^ k
or_fields zero zero b h = omega (arith, bit_or-bitwise 0 (b * 1))
or_fields zero (suc a) b h = absurd (omega arith)
or_fields (suc k) a b h =
    let half : b * 2 ^ suc k / 2 ≡ b * 2 ^ k = omega (arith, ap (λ (t : ℕ). b * t) (pow-suc 2 k)) in
    let even : b * 2 ^ suc k % 2 ≡ 0 = omega (arith, ap (λ (t : ℕ). b * t) (pow-suc 2 k)) in
    rw (or_step a (b * 2 ^ suc k), half, even, or_fields k (a / 2) b (omega (arith, pow-suc 2 k)))
      (omega (arith, ap (λ (t : ℕ). b * t) (pow-suc 2 k)))

-- The masks of the coder, on numbers of 32 bits.
pub top_bit : (x : ℕ) → x < 2 ^ 32 → bit_and x 0x80000000 ≡ x / 2 ^ 31 * 2 ^ 31
top_bit x h = omega (arith, and_one_bit 31 x)

pub second_bit : (x : ℕ) → bit_and x 0x40000000 ≡ x / 2 ^ 30 % 2 * 2 ^ 30
second_bit x = and_one_bit 30 x

pub drop_second_bit : (x : ℕ) → bit_and x 0x3FFFFFFF ≡ x % 2 ^ 30
drop_second_bit x = and_low_bits 30 x

pub low_word : (x : ℕ) → bit_and x 0xFFFFFFFF ≡ x % 2 ^ 32
low_word x = and_low_bits 32 x

pub set_second_bit : (x : ℕ) → bit_or x 0x40000000 ≡ x + (1 - x / 2 ^ 30 % 2) * 2 ^ 30
set_second_bit x = or_one_bit 30 x

pub flip_second_bit : (x : ℕ) → bit_xor x 0x40000000 + 2 * (x / 2 ^ 30 % 2 * 2 ^ 30) ≡ x + 2 ^ 30
flip_second_bit x = xor_one_bit 30 x

pub set_lowest : (x : ℕ) → bit_or (x * 2) 1 ≡ x * 2 + 1
set_lowest x = omega (arith, or_one_bit 0 (x * 2))

pub append_bit : (x b : ℕ) → b < 2 → bit_or (x * 2) b ≡ x * 2 + b
append_bit x b h =
    let none : b / 2 ≡ 0 = omega arith in
    rw (or_step (x * 2) b, none, or_zero (x * 2 / 2) (x * 2 / 2) (omega arith)) (omega arith)
