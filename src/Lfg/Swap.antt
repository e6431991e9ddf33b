-- ===== src/Lfg/Swap.antt =====
-- `swap32` (src/lib/nintendo.c) turns the bytes of a word around, so that it undoes itself.
use obmafs.Prelude.{ℕ, ◌+◌, ◌*◌, ◌/◌, ◌%◌, ◌^◌, ◌<◌, ◌≡◌, ◌∙◌, refl, bit_and, u32, arith}
use obmafs.Prelude.Fields.{bit_and_field, bit_or_above}
use obmafs.Lfg.{swap32}

-- The bytes of the word, in the other order.
swap32_bytes :
    (x : ℕ)
    → swap32 x
      ≡ x / 2 ^ 24 % 2 ^ 8
        + x / 2 ^ 8 / 2 ^ 8 % 2 ^ 8 * 2 ^ 8
        + x * 2 ^ 8 % 2 ^ 32 / 2 ^ 16 % 2 ^ 8 * 2 ^ 16
        + x * 2 ^ 24 % 2 ^ 32 / 2 ^ 24 % 2 ^ 8 * 2 ^ 24
unfolding swap32
swap32_bytes x =
    let a : bit_and (x / 2 ^ 24) 0xFF ≡ x / 2 ^ 24 % 2 ^ 8 =
      omega (arith, bit_and_field 0 8 (x / 2 ^ 24)) in
    let b = bit_and_field 8 8 (x / 2 ^ 8) in
    let c = bit_and_field 16 8 (u32 (x * 2 ^ 8)) in
    let d = bit_and_field 24 8 (u32 (x * 2 ^ 24)) in
    rw
      (
        a,
        b,
        c,
        d,
        bit_or_above 8 (x / 2 ^ 24 % 2 ^ 8) (x / 2 ^ 8 / 2 ^ 8 % 2 ^ 8) (omega arith),
        bit_or_above 16 (x / 2 ^ 24 % 2 ^ 8 + x / 2 ^ 8 / 2 ^ 8 % 2 ^ 8 * 2 ^ 8)
            (x * 2 ^ 8 % 2 ^ 32 / 2 ^ 16 % 2 ^ 8) (omega arith),
        bit_or_above 24
            (x / 2 ^ 24 % 2 ^ 8
              + x / 2 ^ 8 / 2 ^ 8 % 2 ^ 8 * 2 ^ 8
              + x * 2 ^ 8 % 2 ^ 32 / 2 ^ 16 % 2 ^ 8 * 2 ^ 16)
            (x * 2 ^ 24 % 2 ^ 32 / 2 ^ 24 % 2 ^ 8) (omega arith),
      )
      refl

swap32_of_bytes :
    (a b c d x : ℕ)
    → a < 256
    → b < 256
    → c < 256
    → d < 256
    → x ≡ a + b * 2 ^ 8 + c * 2 ^ 16 + d * 2 ^ 24
    → swap32 x ≡ d + c * 2 ^ 8 + b * 2 ^ 16 + a * 2 ^ 24
swap32_of_bytes a b c d x ha hb hc hd e =
    let r₁ : x / 2 ^ 24 % 2 ^ 8 ≡ d = omega arith in
    let r₂ : x / 2 ^ 8 / 2 ^ 8 % 2 ^ 8 ≡ c = omega arith in
    let r₃ : x * 2 ^ 8 % 2 ^ 32 / 2 ^ 16 % 2 ^ 8 ≡ b = omega arith in
    let r₄ : x * 2 ^ 24 % 2 ^ 32 / 2 ^ 24 % 2 ^ 8 ≡ a = omega arith in
    omega (arith, swap32_bytes x, r₁, r₂, r₃, r₄)

pub swap32-lt : (x : ℕ) → swap32 x < 2 ^ 32
swap32-lt x = omega (arith, swap32_bytes x)

pub swap32-swap32 : (x : ℕ) → x < 2 ^ 32 → swap32 (swap32 x) ≡ x
swap32-swap32 x small =
    let a = x % 256 in
    let b = x / 256 % 256 in
    let c = x / 65536 % 256 in
    let d = x / 16777216 in
    let split : x ≡ a + b * 2 ^ 8 + c * 2 ^ 16 + d * 2 ^ 24 = omega arith in
    let once =
      swap32_of_bytes a b c d x (omega arith) (omega arith) (omega arith) (omega arith) split in
    swap32_of_bytes d c b a (swap32 x) (omega arith) (omega arith) (omega arith) (omega arith) once
    ∙ omega arith
