-- ===== src/Bitmap/Marking.antt =====
-- What setting and clearing ranges does to the bit of each block (src/lib/bitmap.c).
use obmafs.Prelude.{
  ℕ, zero, suc, ◌+◌, ◌*◌, ◌/◌, ◌%◌, ◌^◌, ◌≤◌, ◌<◌, ◌≡◌, refl, ◌∙◌, List, bit_and, bit_or, ltb, leb,
  ◌==◌, ◌&&◌, if◌then◌else◌, get_or, set, length, length-set, get_or-set_self, get_or-set_ne, u8,
  u64, not32, arith, dec_lt, ℕ_discrete, some,
}
use obmafs.Prelude.Bits.{
  bit, bit-le-one, bit-or, bit-and, bit-pow, bit-complement, bit-mod, bit_and-shift,
}
use obmafs.Context.{Ctx}
use obmafs.Bitmap.{
  set_bit, clear_bit, bit_loop, bytes_is_set, bitmap_set, bitmap_clear, bitmap_is_set,
}

pub bytes_is_set-bit :
    (size : ℕ) (bytes : List ℕ) (j : ℕ)
    → j / 8 < size
    → bytes_is_set size bytes j ≡ bit (get_or bytes (j / 8) 0) (j % 8)
unfolding bytes_is_set
bytes_is_set-bit size bytes j h = ground (arith, bit_and-shift (get_or bytes (j / 8) 0) (j % 8))

pub bytes_is_set-beyond :
    (size : ℕ) (bytes : List ℕ) (j : ℕ) → size ≤ j / 8 → bytes_is_set size bytes j ≡ 0
unfolding bytes_is_set
bytes_is_set-beyond size bytes j h = ground arith

-- The byte that `|= 1u << k` writes.
bit_of_or :
    (x k j : ℕ) → k < 8 → j < 8 → bit (u8 (bit_or x (2 ^ k))) j ≡ (if j == k then 1 else bit x j)
bit_of_or x k j hk hj =
    ground
      (arith, bit-mod 8 (bit_or x (2 ^ k)) j hj, bit-or x (2 ^ k) j, bit-pow k j, bit-le-one x j)

pow-lt : (k : ℕ) → k < 8 → 2 ^ k < 2 ^ 32
pow-lt zero h = omega arith
pow-lt (suc zero) h = omega arith
pow-lt (suc (suc zero)) h = omega arith
pow-lt (suc (suc (suc zero))) h = omega arith
pow-lt (suc (suc (suc (suc zero)))) h = omega arith
pow-lt (suc (suc (suc (suc (suc zero))))) h = omega arith
pow-lt (suc (suc (suc (suc (suc (suc zero)))))) h = omega arith
pow-lt (suc (suc (suc (suc (suc (suc (suc zero))))))) h = omega arith
pow-lt (suc (suc (suc (suc (suc (suc (suc (suc k)))))))) h = absurd (omega arith)

-- The byte that `&= ~(1u << k)` writes.
bit_of_and :
    (x k j : ℕ)
    → k < 8
    → j < 8
    → bit (u8 (bit_and x (not32 (2 ^ k)))) j ≡ (if j == k then 0 else bit x j)
bit_of_and x k j hk hj = ground (
  arith,
  bit-mod 8 (bit_and x (not32 (2 ^ k))) j hj,
  bit-and x (not32 (2 ^ k)) j,
  bit-complement 32 (2 ^ k) j (pow-lt k hk) (omega arith),
  bit-pow k j,
  bit-le-one x j,
)

module _ (size : ℕ) where
  pub length-set_bit : (bytes : List ℕ) (b : ℕ) → length (set_bit size bytes b) ≡ length bytes
  unfolding set_bit
  length-set_bit bytes b =
      ground (arith, length-set bytes (b / 8) (u8 (bit_or (get_or bytes (b / 8) 0) (2 ^ (b % 8)))))

  pub length-clear_bit : (bytes : List ℕ) (b : ℕ) → length (clear_bit size bytes b) ≡ length bytes
  unfolding clear_bit
  length-clear_bit bytes b = ground (
    arith,
    length-set bytes (b / 8) (u8 (bit_and (get_or bytes (b / 8) 0) (not32 (2 ^ (b % 8))))),
  )

  -- The bits after one byte is written.
  is_set-set :
      (bytes : List ℕ) (i v j : ℕ)
      → size ≤ length bytes
      → i < size
      → bytes_is_set size (set bytes i v) j
        ≡ (if j / 8 == i then bit v (j % 8) else bytes_is_set size bytes j)
  unfolding bytes_is_set
  is_set-set bytes i v j h hi = elim (ℕ_discrete (j / 8) i) [
    | yes same ↦ ground (
      arith,
      same,
      bit_and-shift (get_or (set bytes i v) (j / 8) 0) (j % 8),
      get_or-set_self bytes i v 0 (omega arith),
    )
    | no other ↦ ground (arith, get_or-set_ne bytes i (j / 8) v 0)
  ]

  is_set-set_bit :
      (bytes : List ℕ) (b j : ℕ)
      → size ≤ length bytes
      → bytes_is_set size (set_bit size bytes b) j
        ≡ (if (j == b) && ltb j (8 * size) then 1 else bytes_is_set size bytes j)
  unfolding set_bit
  is_set-set_bit bytes b j h = elim (dec_lt (b / 8) size) [
    | no out ↦ ground (arith, bytes_is_set-beyond size bytes j)
    | yes inside ↦ ground (
      arith,
      is_set-set bytes (b / 8) (u8 (bit_or (get_or bytes (b / 8) 0) (2 ^ (b % 8)))) j h inside,
      bytes_is_set-bit size bytes j,
      bit_of_or (get_or bytes (b / 8) 0) (b % 8) (j % 8) (omega arith) (omega arith),
    )
  ]

  is_set-clear_bit :
      (bytes : List ℕ) (b j : ℕ)
      → size ≤ length bytes
      → bytes_is_set size (clear_bit size bytes b) j
        ≡ (if j == b then 0 else bytes_is_set size bytes j)
  unfolding clear_bit
  is_set-clear_bit bytes b j h = elim (dec_lt (b / 8) size) [
    | no out ↦ ground (arith, bytes_is_set-beyond size bytes j)
    | yes inside ↦ ground (
      arith,
      is_set-set bytes (b / 8) (u8 (bit_and (get_or bytes (b / 8) 0) (not32 (2 ^ (b % 8))))) j h
          inside,
      bytes_is_set-bit size bytes j,
      bit_of_and (get_or bytes (b / 8) 0) (b % 8) (j % 8) (omega arith) (omega arith),
    )
  ]

  pub length-bit_loop :
      (step : List ℕ → ℕ → List ℕ)
      → ((bytes : List ℕ) (b : ℕ) → length (step bytes b) ≡ length bytes)
      → (n b : ℕ) (bytes : List ℕ) → length (bit_loop step n b bytes) ≡ length bytes
  unfolding bit_loop
  length-bit_loop step same zero b bytes = refl
  length-bit_loop step same (suc n) b bytes =
      length-bit_loop step same n (u64 (b + 1)) (step bytes b) ∙ same bytes b

  is_set-set_loop :
      (n b j : ℕ) (bytes : List ℕ)
      → size ≤ length bytes
      → b + n < 2 ^ 64
      → bytes_is_set size (bit_loop (set_bit size) n b bytes) j
        ≡ (if leb b j && ltb j (b + n) && ltb j (8 * size) then 1 else bytes_is_set size bytes j)
  unfolding bit_loop
  is_set-set_loop zero b j bytes h hn = ground arith
  is_set-set_loop (suc n) b j bytes h hn =
      let e : u64 (b + 1) ≡ b + 1 = omega arith in
      rw e (
        ground (
          arith,
          is_set-set_loop n (b + 1) j (set_bit size bytes b) (omega (arith, length-set_bit bytes b))
              (omega arith),
          is_set-set_bit bytes b j h,
        ))

  is_set-clear_loop :
      (n b j : ℕ) (bytes : List ℕ)
      → size ≤ length bytes
      → b + n < 2 ^ 64
      → bytes_is_set size (bit_loop (clear_bit size) n b bytes) j
        ≡ (if leb b j && ltb j (b + n) then 0 else bytes_is_set size bytes j)
  unfolding bit_loop
  is_set-clear_loop zero b j bytes h hn = ground arith
  is_set-clear_loop (suc n) b j bytes h hn =
      let e : u64 (b + 1) ≡ b + 1 = omega arith in
      rw e (
        ground (
          arith,
          is_set-clear_loop n (b + 1) j (clear_bit size bytes b)
              (omega (arith, length-clear_bit bytes b)) (omega arith),
          is_set-clear_bit bytes b j h,
        ))

pub bitmap_is_set-bytes :
    (ctx : Ctx) (bytes : List ℕ) (j : ℕ)
    → ctx.bitmap ≡ some bytes
    → bitmap_is_set ctx j ≡ bytes_is_set ctx.bitmap_size bytes j
unfolding bitmap_is_set
bitmap_is_set-bytes ctx bytes j h = rw h

-- The bitmap is in memory, and `bitmap_size` of its bytes are there.
abbrev pub HasBitmap : Ctx → List ℕ → Type 0
HasBitmap ctx bytes = (ctx.bitmap ≡ some bytes) × (ctx.bitmap_size ≤ length bytes)

-- After `obmafs3_bitmap_set` a block is allocated exactly if it was or is one of the `count`
-- blocks from `lba` that the bitmap covers; every other bit is as before.
pub is_set-bitmap_set :
    (ctx : Ctx) (bytes : List ℕ) (lba count j : ℕ)
    → HasBitmap ctx bytes
    → lba + count < 2 ^ 64
    → bitmap_is_set (bitmap_set ctx lba count) j ≡ (
        if leb lba j && ltb j (lba + count) && ltb j (8 * ctx.bitmap_size)
        then 1
        else bitmap_is_set ctx j)
unfolding bitmap_set bitmap_is_set
is_set-bitmap_set ctx bytes lba count j h hn =
    rw (h.0, is_set-set_loop ctx.bitmap_size count lba j bytes h.1 hn)

-- After `obmafs3_bitmap_clear` the `count` blocks from `lba` are free, and every other bit is as
-- before.
pub is_set-bitmap_clear :
    (ctx : Ctx) (bytes : List ℕ) (lba count j : ℕ)
    → HasBitmap ctx bytes
    → lba + count < 2 ^ 64
    → bitmap_is_set (bitmap_clear ctx lba count) j
      ≡ (if leb lba j && ltb j (lba + count) then 0 else bitmap_is_set ctx j)
unfolding bitmap_clear bitmap_is_set
is_set-bitmap_clear ctx bytes lba count j h hn =
    rw (h.0, is_set-clear_loop ctx.bitmap_size count lba j bytes h.1 hn)
