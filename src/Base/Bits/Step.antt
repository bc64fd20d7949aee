-- ===== src/Base/Bits/Step.antt =====
-- One equation for the lowest digit of each native operation on bits, which the library defines by
-- binary digits.
use Prim.Native.Nat.{ℕ, zero, suc, ◌+◌, ◌*◌, ◌/◌, ◌%◌, ◌≤◌, ◌<◌, min, max, bit_and, bit_or, bit_xor}
use Prim.Native.Nat.{digits, bitwise, differ, bit_and-bitwise, bit_or-bitwise, bit_xor-bitwise}
use mathlib.Core.Path.{◌≡◌, refl, ap}
use native.Mathlib.Omega.{arith}

module _ (absent : ℕ → ℕ) (op : ℕ → ℕ → ℕ) where
  -- The digit that the recursion puts behind those of the halves.
  lowest : ℕ → ℕ → ℕ → ℕ
  lowest x y higher = higher * 2 + op (x % 2) (y % 2)

  -- Any fuel from the number on gives the same digits.
  refuel :
      (x y : ℕ) (g : ℕ) → x ≤ g → (h : ℕ) → x ≤ h → digits absent op g x y ≡ digits absent op h x y
  unfolding lowest
  refuel zero y zero u zero v = refl
  refuel zero y zero u (suc h) v = refl
  refuel zero y (suc g) u zero v = refl
  refuel zero y (suc g) u (suc h) v = refl
  refuel (suc x) y zero u h v = absurd (omega (u, arith))
  refuel (suc x) y (suc g) u zero v = absurd (omega (v, arith))
  refuel (suc x) y (suc g) u (suc h) v =
      ap (lowest (suc x) y) (refuel (suc x / 2) (y / 2) g (omega arith) h (omega arith))

  -- `bitwise` by its lowest digit.
  by_lowest :
      (x y : ℕ)
      → bitwise absent op (suc x) y ≡ lowest (suc x) y (bitwise absent op (suc x / 2) (y / 2))
  unfolding lowest
  by_lowest x y =
      ap (lowest (suc x) y) (refuel (suc x / 2) (y / 2) x (omega arith) (suc x / 2) (omega arith))

pub bit_and_step : (x y : ℕ) → bit_and x y ≡ bit_and (x / 2) (y / 2) * 2 + min (x % 2) (y % 2)
unfolding lowest
bit_and_step zero y = simp bit_and-bitwise (omega arith)
bit_and_step (suc x) y = simp bit_and-bitwise (by_lowest (λ rest. 0) min x y)

pub bit_or_step : (x y : ℕ) → bit_or x y ≡ bit_or (x / 2) (y / 2) * 2 + max (x % 2) (y % 2)
unfolding lowest
bit_or_step zero y = simp bit_or-bitwise (omega arith)
bit_or_step (suc x) y = simp bit_or-bitwise (by_lowest (λ rest. rest) max x y)

differ_digits : (p q : ℕ) → p < 2 → q < 2 → differ p q ≡ (p + q) % 2
differ_digits zero q h k = omega arith
differ_digits (suc zero) zero h k = omega arith
differ_digits (suc zero) (suc zero) h k = omega arith
differ_digits (suc zero) (suc (suc q)) h k = absurd (omega arith)
differ_digits (suc (suc p)) q h k = absurd (omega arith)

pub zero-bit_xor : (b : ℕ) → bit_xor 0 b ≡ b
zero-bit_xor b = bit_xor-bitwise 0 b

pub bit_xor_step : (a b : ℕ) → bit_xor a b ≡ bit_xor (a / 2) (b / 2) * 2 + (a + b) % 2
unfolding lowest
bit_xor_step zero b = omega (arith, zero-bit_xor b, zero-bit_xor (b / 2))
bit_xor_step (suc a) b = omega (
  arith,
  bit_xor-bitwise (suc a) b,
  bit_xor-bitwise (suc a / 2) (b / 2),
  by_lowest (λ rest. rest) differ a b,
  differ_digits (suc a % 2) (b % 2) (omega arith) (omega arith),
)
