-- ===== src/Base/Bits/Flags.antt =====
-- Masks with one bit and with all bits below a power of two, as arithmetic.
use Prim.Native.Nat.{ℕ, zero, suc, ◌+◌, ◌-◌, ◌*◌, ◌/◌, ◌%◌, ◌^◌, ◌≤◌, ◌<◌, bit_and, bit_or}
use mathlib.Core.Path.{◌≡◌, refl}
use native.Mathlib.Nat.{le_refl, pow-suc}
use native.Mathlib.Omega.{arith}
use vynkor_sdk_cpp.Base.Bits.Step.{bit_or_step, bit_and_step}

and_zero_fuel : (n a : ℕ) → a ≤ n → bit_and a 0 ≡ 0
and_zero_fuel zero zero h = refl
and_zero_fuel zero (suc a) h = absurd (omega arith)
and_zero_fuel (suc n) a h = omega (arith, bit_and_step a 0, and_zero_fuel n (a / 2) (omega arith))

or_zero_fuel : (n a : ℕ) → a ≤ n → bit_or a 0 ≡ a
or_zero_fuel zero zero h = refl
or_zero_fuel zero (suc a) h = absurd (omega arith)
or_zero_fuel (suc n) a h = omega (arith, bit_or_step a 0, or_zero_fuel n (a / 2) (omega arith))

pub bit_and-zero : (a : ℕ) → bit_and a 0 ≡ 0
bit_and-zero a = and_zero_fuel a a (le_refl a)

pub bit_or-zero : (a : ℕ) → bit_or a 0 ≡ a
bit_or-zero a = or_zero_fuel a a (le_refl a)

pub bit_and-1 : (a : ℕ) → bit_and a 1 ≡ a % 2
bit_and-1 a = omega (arith, bit_and_step a 1, bit_and-zero (a / 2))

pub bit_and-2 : (a : ℕ) → bit_and a 2 ≡ a / 2 % 2 * 2
bit_and-2 a = omega (arith, bit_and_step a 2, bit_and-1 (a / 2))

pub bit_and-4 : (a : ℕ) → bit_and a 4 ≡ a / 4 % 2 * 4
bit_and-4 a = omega (arith, bit_and_step a 4, bit_and-2 (a / 2))

bit_and-8 : (a : ℕ) → bit_and a 8 ≡ a / 8 % 2 * 8
bit_and-8 a = omega (arith, bit_and_step a 8, bit_and-4 (a / 2))

pub bit_and-16 : (a : ℕ) → bit_and a 16 ≡ a / 16 % 2 * 16
bit_and-16 a = omega (arith, bit_and_step a 16, bit_and-8 (a / 2))

pub bit_or-1 : (a : ℕ) → bit_or a 1 ≡ a + (1 - a % 2)
bit_or-1 a = omega (arith, bit_or_step a 1, bit_or-zero (a / 2))

pub bit_or-2 : (a : ℕ) → bit_or a 2 ≡ a + (2 - a / 2 % 2 * 2)
bit_or-2 a = omega (arith, bit_or_step a 2, bit_or-1 (a / 2))

bit_and-32 : (a : ℕ) → bit_and a 32 ≡ a / 32 % 2 * 32
bit_and-32 a = omega (arith, bit_and_step a 32, bit_and-16 (a / 2))

bit_and-64 : (a : ℕ) → bit_and a 64 ≡ a / 64 % 2 * 64
bit_and-64 a = omega (arith, bit_and_step a 64, bit_and-32 (a / 2))

pub bit_and-128 : (a : ℕ) → bit_and a 128 ≡ a / 128 % 2 * 128
bit_and-128 a = omega (arith, bit_and_step a 128, bit_and-64 (a / 2))

-- A bit above all others is added.
pub bit_or_top : (k a : ℕ) → a < 2 ^ k → bit_or (2 ^ k) a ≡ 2 ^ k + a
bit_or_top zero zero h = bit_or-zero 1
bit_or_top zero (suc a) h = absurd (omega arith)
bit_or_top (suc k) a h = ground (
  arith,
  bit_or_step (2 ^ suc k) a,
  pow-suc 2 k,
  bit_or_top k (a / 2) (omega (arith, pow-suc 2 k)),
)

-- Masks of all the lowest bits, one bit longer in each lemma.
bit_and-3 : (a : ℕ) → bit_and a 3 ≡ a % 4
bit_and-3 a = omega (arith, bit_and_step a 3, bit_and-1 (a / 2))

bit_and-7 : (a : ℕ) → bit_and a 7 ≡ a % 8
bit_and-7 a = omega (arith, bit_and_step a 7, bit_and-3 (a / 2))

pub bit_and-15 : (a : ℕ) → bit_and a 15 ≡ a % 16
bit_and-15 a = omega (arith, bit_and_step a 15, bit_and-7 (a / 2))

bit_and-31 : (a : ℕ) → bit_and a 31 ≡ a % 32
bit_and-31 a = omega (arith, bit_and_step a 31, bit_and-15 (a / 2))

bit_and-63 : (a : ℕ) → bit_and a 63 ≡ a % 64
bit_and-63 a = omega (arith, bit_and_step a 63, bit_and-31 (a / 2))

pub bit_and-127 : (a : ℕ) → bit_and a 127 ≡ a % 128
bit_and-127 a = omega (arith, bit_and_step a 127, bit_and-63 (a / 2))

pub bit_and-255 : (a : ℕ) → bit_and a 255 ≡ a % 256
bit_and-255 a = omega (arith, bit_and_step a 255, bit_and-127 (a / 2))

bit_and-511 : (a : ℕ) → bit_and a 511 ≡ a % 512
bit_and-511 a = omega (arith, bit_and_step a 511, bit_and-255 (a / 2))

bit_and-1023 : (a : ℕ) → bit_and a 1023 ≡ a % 1024
bit_and-1023 a = omega (arith, bit_and_step a 1023, bit_and-511 (a / 2))

bit_and-2047 : (a : ℕ) → bit_and a 2047 ≡ a % 2048
bit_and-2047 a = omega (arith, bit_and_step a 2047, bit_and-1023 (a / 2))

bit_and-4095 : (a : ℕ) → bit_and a 4095 ≡ a % 4096
bit_and-4095 a = omega (arith, bit_and_step a 4095, bit_and-2047 (a / 2))

bit_and-8191 : (a : ℕ) → bit_and a 8191 ≡ a % 8192
bit_and-8191 a = omega (arith, bit_and_step a 8191, bit_and-4095 (a / 2))

pub bit_and-0x3fff : (a : ℕ) → bit_and a 0x3fff ≡ a % 16384
bit_and-0x3fff a = omega (arith, bit_and_step a 0x3fff, bit_and-8191 (a / 2))

-- Clearing the lowest bit of a 15-bit word.
bit_and-0x7ffe : (a : ℕ) → a < 0x8000 → bit_and a 0x7ffe ≡ a - a % 2
bit_and-0x7ffe a h = omega (arith, bit_and_step a 0x7ffe, bit_and-0x3fff (a / 2))

-- Clearing the second bit of a 16-bit word.
pub bit_and-0xfffd : (a : ℕ) → a < 0x10000 → bit_and a 0xfffd ≡ a - a / 2 % 2 * 2
bit_and-0xfffd a h = omega (arith, bit_and_step a 0xfffd, bit_and-0x7ffe (a / 2) (omega arith))
