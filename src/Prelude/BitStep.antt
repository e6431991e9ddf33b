-- ===== src/Prelude/BitStep.antt =====
-- One equation for the lowest binary digit of `bit_and` and of `bit_or`.
use Prim.Native.Nat.{
  ℕ, zero, suc, ◌+◌, ◌*◌, ◌/◌, ◌%◌, ◌≤◌, min, max, digits, bitwise, bit_and, bit_or,
  bit_and-bitwise, bit_or-bitwise, bit_xor, bit_xor-bitwise, differ,
}
use mathlib.Core.Path.{◌≡◌, refl}
use native.Mathlib.Omega.{arith}

-- `op` on the digits, and `rest` for what is left of the second number.
module _ (rest : ℕ → ℕ) (op : ℕ → ℕ → ℕ) where
  -- Fuel that is at least the first number does not matter.
  fuel_enough : (bound n x y : ℕ) → n ≤ bound → x ≤ n → digits rest op n x y ≡ bitwise rest op x y
  fuel_enough bound zero zero y hn hx = refl
  fuel_enough bound (suc n) zero y hn hx = refl
  fuel_enough bound zero (suc x) y hn hx = absurd (omega arith)
  fuel_enough zero (suc n) (suc x) y hn hx = absurd (omega arith)
  fuel_enough (suc bound) (suc n) (suc x) y hn hx = omega (
    arith,
    fuel_enough bound n (suc x / 2) (y / 2) (omega arith) (omega arith),
    fuel_enough bound x (suc x / 2) (y / 2) (omega arith) (omega arith),
  )

  low_digit :
      (x y : ℕ)
      → bitwise rest op (suc x) y ≡ op (suc x % 2) (y % 2) + 2 * bitwise rest op (suc x / 2) (y / 2)
  low_digit x y = omega (arith, fuel_enough x x (suc x / 2) (y / 2) (omega arith) (omega arith))

pub bit_or_step : (x y : ℕ) → bit_or x y ≡ max (x % 2) (y % 2) + 2 * bit_or (x / 2) (y / 2)
bit_or_step zero y = omega (arith, bit_or-bitwise 0 y, bit_or-bitwise 0 (y / 2))
bit_or_step (suc x) y = omega (
  arith,
  low_digit (λ v. v) max x y,
  bit_or-bitwise (suc x) y,
  bit_or-bitwise (suc x / 2) (y / 2),
)

pub bit_and_step : (x y : ℕ) → bit_and x y ≡ min (x % 2) (y % 2) + 2 * bit_and (x / 2) (y / 2)
bit_and_step zero y = omega (arith, bit_and-bitwise 0 y, bit_and-bitwise 0 (y / 2))
bit_and_step (suc x) y = omega (
  arith,
  low_digit (λ v. 0) min x y,
  bit_and-bitwise (suc x) y,
  bit_and-bitwise (suc x / 2) (y / 2),
)

pub bit_xor_step : (x y : ℕ) → bit_xor x y ≡ differ (x % 2) (y % 2) + 2 * bit_xor (x / 2) (y / 2)
bit_xor_step zero y = omega (arith, bit_xor-bitwise 0 y, bit_xor-bitwise 0 (y / 2), digit (y % 2))
  where
    digit : (v : ℕ) → differ 0 v ≡ v
    digit v = refl
bit_xor_step (suc x) y = omega (
  arith,
  low_digit (λ v. v) differ x y,
  bit_xor-bitwise (suc x) y,
  bit_xor-bitwise (suc x / 2) (y / 2),
)
