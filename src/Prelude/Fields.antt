-- ===== src/Prelude/Fields.antt =====
-- Fields of a word that the bit operations cut out and put together.
use obmafs.Prelude.BitStep.{bit_or_step, bit_and_step, bit_xor_step}
use Prim.Native.Nat.{
  ℕ, zero, suc, ◌+◌, ◌-◌, ◌*◌, ◌/◌, ◌%◌, ◌^◌, ◌≤◌, ◌<◌, bit_and, bit_or, bit_xor, bit_and-bitwise,
  bit_or-bitwise, differ,
}
use mathlib.Core.Path.{◌≡◌, refl, sym, ap, ◌∙◌}
use native.Mathlib.Nat.{
  pow-suc, pow-succ', div-div-eq-div-mul, one-le-pow, div-add-mod', mul-add-mod_self_right,
  mod-eq_of_lt, mod-lt,
}
use native.Mathlib.Omega.{arith}

and_zero : (bound x : ℕ) → x ≤ bound → bit_and x 0 ≡ 0
and_zero bound zero h = bit_and-bitwise 0 0
and_zero zero (suc x) h = absurd (omega arith)
and_zero (suc bound) (suc x) h =
    omega (arith, bit_and_step (suc x) 0, and_zero bound (suc x / 2) (omega arith))

mod_step : (n x : ℕ) → x % 2 ^ suc n ≡ x % 2 + 2 * (x / 2 % 2 ^ n)
mod_step n x =
    let m = 2 ^ n in
    let q = x / 2 / m in
    let s = x % 2 + 2 * (x / 2 % m) in
    let pos = one-le-pow n 2 in
    let whole = div-add-mod' (x / 2) m in
    let double : q * 2 ^ suc n ≡ q * m * 2 = ap (λ k. q * k) (pow-suc 2 n) ∙ omega arith in
    let parts : x ≡ q * 2 ^ suc n + s = omega (arith, whole, double) in
    let below : x / 2 % m < m = mod-lt (x / 2) (omega (arith, pos)) in
    ap (λ v. v % 2 ^ suc n) parts
    ∙ mul-add-mod_self_right q (2 ^ suc n) s
    ∙ mod-eq_of_lt (omega (arith, below, pow-suc 2 n))

-- A mask of the `n` low bits.
pub bit_and_low : (n x : ℕ) → bit_and x (2 ^ n - 1) ≡ x % 2 ^ n
bit_and_low zero x = omega (arith, and_zero x x (omega arith))
bit_and_low (suc n) x =
    let half : (2 ^ suc n - 1) / 2 ≡ 2 ^ n - 1 = omega (arith, pow-suc 2 n, one-le-pow n 2) in
    let rest : bit_and (x / 2) ((2 ^ suc n - 1) / 2) ≡ x / 2 % 2 ^ n =
      ap (bit_and (x / 2)) half ∙ bit_and_low n (x / 2) in
    omega (arith, bit_and_step x (2 ^ suc n - 1), rest, pow-suc 2 n, one-le-pow n 2, mod_step n x)

or_zero : (bound x : ℕ) → x ≤ bound → bit_or x 0 ≡ x
or_zero bound zero h = bit_or-bitwise 0 0
or_zero zero (suc x) h = absurd (omega arith)
or_zero (suc bound) (suc x) h =
    omega (arith, bit_or_step (suc x) 0, or_zero bound (suc x / 2) (omega arith))

-- A field above the others.
pub bit_or_above : (w r q : ℕ) → r < 2 ^ w → bit_or r (q * 2 ^ w) ≡ r + q * 2 ^ w
bit_or_above zero r q h =
    let none_low : r ≡ 0 = omega arith in rw none_low (omega (arith, bit_or-bitwise 0 (q * 2 ^ 0)))
bit_or_above (suc w) r q h =
    let twice : q * 2 ^ suc w ≡ q * 2 ^ w * 2 = ap (λ m. q * m) (pow-suc 2 w) ∙ omega arith in
    let half : q * 2 ^ suc w / 2 ≡ q * 2 ^ w = omega (arith, twice) in
    let rest : bit_or (r / 2) (q * 2 ^ suc w / 2) ≡ r / 2 + q * 2 ^ w =
      ap (bit_or (r / 2)) half ∙ bit_or_above w (r / 2) q (omega (arith, pow-suc 2 w)) in
    omega (arith, bit_or_step r (q * 2 ^ suc w), rest, twice)

-- Adding twice by exclusive or changes nothing.
differ_twice : (x y : ℕ) → x < 2 → y < 2 → (differ (differ x y) y ≡ x) × (differ x y < 2)
differ_twice zero zero p q = (refl, omega arith)
differ_twice zero (suc zero) p q = (refl, omega arith)
differ_twice (suc zero) zero p q = (refl, omega arith)
differ_twice (suc zero) (suc zero) p q = (refl, omega arith)
differ_twice x (suc (suc y)) p q = absurd (omega arith)
differ_twice (suc (suc x)) y p q = absurd (omega arith)

xor_below : (bound x y : ℕ) → x ≤ bound → y ≤ bound → bit_xor (bit_xor x y) y ≡ x
xor_below zero x y p q =
    let x_zero : x ≡ 0 = omega arith in let y_zero : y ≡ 0 = omega arith in rw (x_zero, y_zero) refl
xor_below (suc bound) x y p q =
    let low = differ_twice (x % 2) (y % 2) (omega arith) (omega arith) in
    let once = bit_xor_step x y in
    let z = bit_xor x y in
    let low_z : z % 2 ≡ differ (x % 2) (y % 2) = omega (arith, once, low) in
    let high_z : z / 2 ≡ bit_xor (x / 2) (y / 2) = omega (arith, once, low) in
    let twice = bit_xor_step z y in
    let first : differ (z % 2) (y % 2) ≡ x % 2 = ap (λ d. differ d (y % 2)) low_z ∙ low.0 in
    let rest : bit_xor (z / 2) (y / 2) ≡ x / 2 =
      ap (λ d. bit_xor d (y / 2)) high_z
      ∙ xor_below bound (x / 2) (y / 2) (omega arith) (omega arith) in
    omega (arith, twice, first, rest)

pub xor_twice : (x y : ℕ) → bit_xor (bit_xor x y) y ≡ x
xor_twice x y = xor_below (x + y) x y (omega arith) (omega arith)

-- A mask of `n` bits from `s` on.
pub bit_and_field : (s n x : ℕ) → bit_and x ((2 ^ n - 1) * 2 ^ s) ≡ x / 2 ^ s % 2 ^ n * 2 ^ s
bit_and_field zero n x =
    let whole : (2 ^ n - 1) * 2 ^ 0 ≡ 2 ^ n - 1 = omega arith in
    let all : x / 2 ^ 0 ≡ x = omega arith in rw (whole, all) (omega (arith, bit_and_low n x))
bit_and_field (suc s) n x =
    let mask : (2 ^ n - 1) * 2 ^ suc s ≡ (2 ^ n - 1) * 2 ^ s * 2 =
      ap (λ k. (2 ^ n - 1) * k) (pow-suc 2 s) ∙ omega arith in
    let half : (2 ^ n - 1) * 2 ^ suc s / 2 ≡ (2 ^ n - 1) * 2 ^ s = omega (arith, mask) in
    let shift : x / 2 / 2 ^ s ≡ x / 2 ^ suc s =
      div-div-eq-div-mul x 2 (2 ^ s) ∙ ap (λ k. x / k) (sym (pow-succ' 2 s)) in
    let f = x / 2 ^ suc s % 2 ^ n in
    let twice : f * 2 ^ suc s ≡ f * 2 ^ s * 2 = ap (λ k. f * k) (pow-suc 2 s) ∙ omega arith in
    let rest : bit_and (x / 2) ((2 ^ n - 1) * 2 ^ suc s / 2) ≡ f * 2 ^ s =
      ap (bit_and (x / 2)) half ∙ bit_and_field s n (x / 2) ∙ ap (λ k. k % 2 ^ n * 2 ^ s) shift in
    omega (arith, bit_and_step x ((2 ^ n - 1) * 2 ^ suc s), rest, twice, mask)
