-- ===== src/Bitmap/Search/Word.antt =====
-- The words that the search reads, the masks that it lays over them, and the scan of one mask
-- (src/lib/bitmap.c).
use obmafs.Prelude.{
  ℕ, zero, suc, ◌+◌, ◌-◌, ◌*◌, ◌/◌, ◌%◌, ◌^◌, ◌<◌, ◌≡◌, ◌∙◌, bit_or, ltb, leb, ◌==◌, if◌then◌else◌,
  arith, dec_lt, not64, ◌||◌,
}
use native.Mathlib.Nat.{pow-suc, one-le-pow}
use native.Mathlib.Numerals.{towards_suc}
use obmafs.Prelude.Bits.{
  bit, bit-le-one, bit-or, bit-complement, bit_low_mask, bit_or-lt, bit_low_part, bit_high_part,
}
use obmafs.Bitmap.Search.{load_le, load_word, mask_word}

pow_add_eight : (n : ℕ) → 2 ^ (n + 8) ≡ 256 * 2 ^ n
pow_add_eight n = simp towards_suc (
    omega (
      arith,
      pow-suc 2 n,
      pow-suc 2 (suc n),
      pow-suc 2 (suc (suc n)),
      pow-suc 2 (suc (suc (suc n))),
      pow-suc 2 (suc (suc (suc (suc n)))),
      pow-suc 2 (suc (suc (suc (suc (suc n))))),
      pow-suc 2 (suc (suc (suc (suc (suc (suc n)))))),
      pow-suc 2 (suc (suc (suc (suc (suc (suc (suc n))))))),
    ))

module _ (m : ℕ → ℕ) (small : (i : ℕ) → m i < 256) where
  bit-load_le : (n i k : ℕ) → k < 8 * n → bit (load_le m n i) k ≡ bit (m (i + k / 8)) (k % 8)
  unfolding load_le
  bit-load_le zero i k h = absurd (omega arith)
  bit-load_le (suc n) i k h =
      let e : m i + 256 * load_le m n (i + 1) ≡ load_le m n (i + 1) * 2 ^ 8 + m i = omega arith in
      rw e (elim (dec_lt k 8) [
        | yes low ↦
            let i0 : i + k / 8 ≡ i = omega arith in
            let k0 : k % 8 ≡ k = omega arith in
            rw (i0, k0) (bit_low_part 8 (load_le m n (i + 1)) (m i) k low)
        | no high ↦
            let i1 : i + k / 8 ≡ i + 1 + (k - 8) / 8 = omega arith in
            let k1 : k % 8 ≡ (k - 8) % 8 = omega arith in
            rw (i1, k1)
              (bit_high_part 8 (load_le m n (i + 1)) (m i) k (k - 8) (small i) (omega arith)
                ∙ bit-load_le n (i + 1) (k - 8) (omega arith))
      ])

  load_le-lt : (n i : ℕ) → load_le m n i < 2 ^ (8 * n)
  unfolding load_le
  load_le-lt zero i = omega arith
  load_le-lt (suc n) i =
      let e : 8 * suc n ≡ 8 * n + 8 = omega arith in
      rw e (omega (arith, small i, load_le-lt n (i + 1), pow_add_eight (8 * n)))

  pub load_word-lt : (idx : ℕ) → load_word m idx < 2 ^ 64
  unfolding load_word
  load_word-lt idx = load_le-lt 8 (idx * 8)

  pub bit-load_word :
      (idx k : ℕ) → k < 64 → bit (load_word m idx) k ≡ bit (m ((idx * 64 + k) / 8)) (k % 8)
  unfolding load_word
  bit-load_word idx k h =
      let e : (idx * 64 + k) / 8 ≡ idx * 8 + k / 8 = omega arith in
      rw e (bit-load_le 8 (idx * 8) k (omega arith))

pow-lt-pow : (k n : ℕ) → k < n → 2 ^ k < 2 ^ n
pow-lt-pow k zero h = absurd (omega arith)
pow-lt-pow zero (suc n) h = omega (arith, pow-suc 2 n, one-le-pow n 2)
pow-lt-pow (suc k) (suc n) h = omega (arith, pow-suc 2 n, pow-suc 2 k, pow-lt-pow k n (omega arith))

-- Bit `k` of `~(((uint64_t)1 << a) - 1)`.
bit_high_mask : (a k : ℕ) → a < 64 → k < 64 → bit (not64 (2 ^ a - 1)) k ≡ (if ltb k a then 0 else 1)
bit_high_mask a k ha hk = ground (
  arith,
  bit-complement 64 (2 ^ a - 1) k (omega (arith, pow-lt-pow a 64 ha)) hk,
  bit_low_mask a k,
)

-- The mask over the bits below the position.
mask_below : ℕ → ℕ → ℕ
mask_below word b = if b == 0 then word else bit_or word (2 ^ b - 1)

module _ (word b : ℕ) (word_lt : word < 2 ^ 64) (b_lt : b < 64) where
  mask_below-lt : mask_below word b < 2 ^ 64
  unfolding mask_below
  mask_below-lt =
      ground (arith, bit_or-lt 64 word (2 ^ b - 1) word_lt (omega (arith, pow-lt-pow b 64 b_lt)))

  bit-mask_below : (k : ℕ) → bit (mask_below word b) k ≡ (if ltb k b then 1 else bit word k)
  unfolding mask_below
  bit-mask_below k = ground (arith, bit-or word (2 ^ b - 1) k, bit_low_mask b k, bit-le-one word k)

  module _ (base scan_end : ℕ) (live : base < scan_end) (fits : base + 64 < 2 ^ 64) where
    mask_word-below : mask_word word b (base + 64) scan_end ≡ (
        if ltb scan_end (base + 64)
        then bit_or (mask_below word b) (not64 (2 ^ (scan_end - base) - 1))
        else mask_below word b)
    unfolding mask_word mask_below
    mask_word-below = elim (dec_lt scan_end (base + 64)) [
      | no whole ↦ ground arith
      | yes cut ↦
          let e : 64 - (base + 64 - scan_end) ≡ scan_end - base = omega arith in rw e (ground arith)
    ]

    pub mask_word-lt : mask_word word b (base + 64) scan_end < 2 ^ 64
    mask_word-lt = rw mask_word-below (
        ground (
          arith,
          mask_below-lt,
          bit_or-lt 64 (mask_below word b) (not64 (2 ^ (scan_end - base) - 1)) mask_below-lt
              (omega arith),
        ))

    -- The bits that the masks leave free: those from `b` on, below `scan_end`, that are clear in
    -- the word.
    pub bit-mask_word :
        (k : ℕ)
        → k < 64
        → bit (not64 (mask_word word b (base + 64) scan_end)) k
          ≡ (if ltb k b || leb scan_end (base + k) then 0 else 1 - bit word k)
    bit-mask_word k hk = elim (dec_lt scan_end (base + 64)) [
      | no whole ↦ ground (
        arith,
        mask_word-below,
        bit-complement 64 (mask_word word b (base + 64) scan_end) k mask_word-lt hk,
        bit-mask_below k,
      )
      | yes cut ↦ ground (
        arith,
        mask_word-below,
        bit-complement 64 (mask_word word b (base + 64) scan_end) k mask_word-lt hk,
        bit-or (mask_below word b) (not64 (2 ^ (scan_end - base) - 1)) k,
        bit_high_mask (scan_end - base) k (omega arith) hk,
        bit-mask_below k,
        bit-le-one word k,
      )
    ]
