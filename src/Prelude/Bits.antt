-- ===== src/Prelude/Bits.antt =====
-- Single bits of a number, and what the bit operations of C do to each.
use obmafs.Prelude.BitStep.{bit_or_step, bit_and_step}
use obmafs.Prelude.Tests.{◌==◌, ltb, if◌then◌else◌}
use Prim.Native.Nat.{
  ℕ, zero, suc, ◌+◌, ◌-◌, ◌*◌, ◌/◌, ◌%◌, ◌^◌, ◌≤◌, ◌<◌, min, max, bit_and, bit_or, bit_and-bitwise,
}
use mathlib.Core.Path.{◌≡◌, refl, sym, ap, ◌∙◌}
use native.Mathlib.Nat.{pow-suc, pow-succ', one-le-pow, div-div-eq-div-mul}
use native.Mathlib.Omega.{arith}
use native.Mathlib.Decide.{dec_lt}

-- A shift by one more bit doubles.
double_shift : (high w : ℕ) → high * 2 ^ suc w ≡ high * 2 ^ w * 2
double_shift high w = ap (λ m. high * m) (pow-suc 2 w) ∙ omega arith

-- Bit `k` of `x`, 0 or 1.
abbrev pub bit : ℕ → ℕ → ℕ
bit x zero = x % 2
bit x (suc k) = bit (x / 2) k

pub bit-le-one : (x k : ℕ) → bit x k ≤ 1
bit-le-one x zero = omega arith
bit-le-one x (suc k) = bit-le-one (x / 2) k

pub pos_of_bit : (k x : ℕ) → bit x k ≡ 1 → 0 < x
pos_of_bit zero x h = omega arith
pos_of_bit (suc k) x h = omega (arith, pos_of_bit k (x / 2) h)

pub bit-or : (a b k : ℕ) → bit (bit_or a b) k ≡ max (bit a k) (bit b k)
bit-or a b zero = omega (arith, bit_or_step a b)
bit-or a b (suc k) =
    let e : bit_or a b / 2 ≡ bit_or (a / 2) (b / 2) = omega (arith, bit_or_step a b) in
    rw e (bit-or (a / 2) (b / 2) k)

pub bit-and : (a b k : ℕ) → bit (bit_and a b) k ≡ min (bit a k) (bit b k)
bit-and a b zero = omega (arith, bit_and_step a b)
bit-and a b (suc k) =
    let e : bit_and a b / 2 ≡ bit_and (a / 2) (b / 2) = omega (arith, bit_and_step a b) in
    rw e (bit-and (a / 2) (b / 2) k)

pub bit-zero : (k : ℕ) → bit 0 k ≡ 0
bit-zero zero = refl
bit-zero (suc k) = bit-zero k

pub bit-pow : (n k : ℕ) → bit (2 ^ n) k ≡ (if k == n then 1 else 0)
bit-pow zero zero = refl
bit-pow zero (suc k) = ground (arith, bit-zero k)
bit-pow (suc n) zero = ground (arith, pow-suc 2 n)
bit-pow (suc n) (suc k) =
    let e : 2 ^ suc n / 2 ≡ 2 ^ n = omega (arith, pow-suc 2 n) in rw e (ground (arith, bit-pow n k))

-- `(1 << n) - 1` has the `n` low bits set.
pub bit_low_mask : (n k : ℕ) → bit (2 ^ n - 1) k ≡ (if ltb k n then 1 else 0)
bit_low_mask zero k = ground (arith, bit-zero k)
bit_low_mask (suc n) zero = ground (arith, pow-suc 2 n, one-le-pow n 2)
bit_low_mask (suc n) (suc k) =
    let e : (2 ^ suc n - 1) / 2 ≡ 2 ^ n - 1 = omega (arith, pow-suc 2 n, one-le-pow n 2) in
    rw e (ground (arith, bit_low_mask n k))

-- Complement within `w` bits.
pub bit-complement : (w x k : ℕ) → x < 2 ^ w → k < w → bit (2 ^ w - 1 - x) k ≡ 1 - bit x k
bit-complement zero x k hx hk = absurd (omega arith)
bit-complement (suc w) x zero hx hk = omega (arith, pow-suc 2 w)
bit-complement (suc w) x (suc k) hx hk =
    let e : (2 ^ suc w - 1 - x) / 2 ≡ 2 ^ w - 1 - x / 2 = omega (arith, pow-suc 2 w) in
    rw e (bit-complement w (x / 2) k (omega (arith, pow-suc 2 w)) (omega arith))

-- The bits below `w` of a number whose upper part is `q`.
pub bit_low_part : (w q r k : ℕ) → k < w → bit (q * 2 ^ w + r) k ≡ bit r k
bit_low_part zero q r k h = absurd (omega arith)
bit_low_part (suc w) q r zero h = omega (arith, double_shift q w)
bit_low_part (suc w) q r (suc k) h =
    let e : (q * 2 ^ suc w + r) / 2 ≡ q * 2 ^ w + r / 2 = omega (arith, double_shift q w) in
    rw e (bit_low_part w q (r / 2) k (omega arith))

-- The bits from `w` on.
pub bit_high_part : (w q r j k : ℕ) → r < 2 ^ w → w + k ≡ j → bit (q * 2 ^ w + r) j ≡ bit q k
bit_high_part zero q r j k h e =
    let e' : j ≡ k = omega arith in let x : q * 2 ^ 0 + r ≡ q = omega arith in rw (x, e')
bit_high_part (suc w) q r zero k h e = absurd (omega arith)
bit_high_part (suc w) q r (suc j) k h e =
    let x : (q * 2 ^ suc w + r) / 2 ≡ q * 2 ^ w + r / 2 = omega (arith, double_shift q w) in
    rw x (bit_high_part w q (r / 2) j k (omega (arith, pow-suc 2 w)) (omega arith))

-- Truncation to `w` bits keeps the low ones.
pub bit-mod : (w x k : ℕ) → k < w → bit (x % 2 ^ w) k ≡ bit x k
bit-mod w x k h =
    let e : x ≡ x / 2 ^ w * 2 ^ w + x % 2 ^ w = omega arith in
    sym (bit_low_part w (x / 2 ^ w) (x % 2 ^ w) k h) ∙ ap (λ y. bit y k) (sym e)

pub eq_zero_of_bits : (w x : ℕ) → x < 2 ^ w → ((k : ℕ) → k < w → bit x k ≡ 0) → x ≡ 0
eq_zero_of_bits zero x h z = omega arith
eq_zero_of_bits (suc w) x h z = omega (
  arith,
  z 0 (omega arith),
  eq_zero_of_bits w (x / 2) (omega (arith, pow-suc 2 w)) (λ k hk. z (suc k) (omega arith)),
)

pub bit-shift : (x k : ℕ) → x / 2 ^ k % 2 ≡ bit x k
bit-shift x zero = omega arith
bit-shift x (suc k) =
    let e : x / 2 ^ suc k ≡ x / 2 / 2 ^ k =
      ap (λ m. x / m) (pow-succ' 2 k) ∙ sym (div-div-eq-div-mul x 2 (2 ^ k)) in
    rw e (bit-shift (x / 2) k)

-- Induction on a bound for the first number.
and_below : (bound x y : ℕ) → x ≤ bound → (bit_and x y ≤ x) × (bit_and x y ≤ y)
and_below bound zero y h =
    let e : bit_and 0 y ≡ 0 = bit_and-bitwise 0 y in (omega arith, omega arith)
and_below zero (suc x) y h = absurd (omega arith)
and_below (suc bound) (suc x) y h =
    let half = and_below bound (suc x / 2) (y / 2) (omega arith) in
    let low = bit_and_step (suc x) y in (omega arith, omega arith)

pub bit_and-le : (x y : ℕ) → bit_and x y ≤ x
bit_and-le x y = (and_below x x y (omega arith)).0

pub bit_and-le_mask : (x y : ℕ) → bit_and x y ≤ y
bit_and-le_mask x y = (and_below x x y (omega arith)).1

-- `(x >> k) & 1` is bit `k`.
pub bit_and-shift : (x k : ℕ) → bit_and (x / 2 ^ k) 1 ≡ bit x k
bit_and-shift x k = omega (
  arith,
  bit-shift x k,
  bit_and_step (x / 2 ^ k) 1,
  (and_below (x / 2 ^ k / 2) (x / 2 ^ k / 2) 0 (omega arith)).1,
)

pub bit_or-lt : (w a b : ℕ) → a < 2 ^ w → b < 2 ^ w → bit_or a b < 2 ^ w
bit_or-lt zero a b ha hb =
    let ea : a ≡ 0 = omega arith in let eb : b ≡ 0 = omega arith in rw (ea, eb) (omega arith)
bit_or-lt (suc w) a b ha hb = omega (
  arith,
  bit_or_step a b,
  pow-suc 2 w,
  bit_or-lt w (a / 2) (b / 2) (omega (arith, pow-suc 2 w)) (omega (arith, pow-suc 2 w)),
)

-- The bits of `m - 1`, where `p` is the lowest bit set in `m`.
bit-pred :
    (p m k : ℕ)
    → ((j : ℕ) → j < p → bit m j ≡ 0)
    → bit m p ≡ 1
    → bit (m - 1) k ≡ (if ltb k p then 1 else if k == p then 0 else bit m k)
bit-pred zero m zero low one = ground arith
bit-pred zero m (suc k) low one = let e : (m - 1) / 2 ≡ m / 2 = omega arith in rw e (ground arith)
bit-pred (suc p) m zero low one = ground (arith, low 0 (omega arith), pos_of_bit p (m / 2) one)
bit-pred (suc p) m (suc k) low one =
    let e : (m - 1) / 2 ≡ m / 2 - 1 =
      omega (arith, low 0 (omega arith), pos_of_bit p (m / 2) one) in
    rw e (ground (arith, bit-pred p (m / 2) k (λ j h. low (suc j) (omega arith)) one))

-- `m & (m - 1)` drops the lowest bit of `m` that is set.
pub bit_clear_lowest :
    (p m k : ℕ)
    → ((j : ℕ) → j < p → bit m j ≡ 0)
    → bit m p ≡ 1
    → bit (bit_and m (m - 1)) k ≡ (if k == p then 0 else bit m k)
bit_clear_lowest p m k low one = elim (dec_lt k p) [
  | yes h ↦ ground (arith, bit-and m (m - 1) k, bit-pred p m k low one, low k h)
  | no h ↦ ground (arith, bit-and m (m - 1) k, bit-pred p m k low one, bit-le-one m k)
]
