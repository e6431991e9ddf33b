-- ===== src/Bitmap.antt =====
-- The in-memory allocation bitmap of src/lib/bitmap.c: one bit for each block, 1 when it is
-- allocated. Byte `i` of the bitmap holds the bits of the blocks `8 * i` to `8 * i + 7`.
-- This file is `obmafs3_bitmap_set`, `obmafs3_bitmap_clear` and `obmafs3_bitmap_is_set`.
pub mod Bytes
pub mod Disk
pub mod Marking
pub mod Search
use obmafs.Prelude.{
  ℕ, zero, suc, ◌+◌, ◌/◌, ◌%◌, ◌^◌, none, some, Option, List, bit_and, bit_or, ltb, leb,
  if◌then◌else◌, get_or, set, u8, u64, not32,
}
use obmafs.Context.{Ctx}

-- One round of the loop of `obmafs3_bitmap_set`: `bitmap[bit / 8] |= 1u << (bit % 8)`.
unfoldable pub set_bit : ℕ → List ℕ → ℕ → List ℕ
set_bit size bytes b =
    if ltb (b / 8) size
    then set bytes (b / 8) (u8 (bit_or (get_or bytes (b / 8) 0) (2 ^ (b % 8))))
    else bytes

-- One round of the loop of `obmafs3_bitmap_clear`: `bitmap[bit / 8] &= ~(1u << (bit % 8))`.
unfoldable pub clear_bit : ℕ → List ℕ → ℕ → List ℕ
clear_bit size bytes b =
    if ltb (b / 8) size
    then set bytes (b / 8) (u8 (bit_and (get_or bytes (b / 8) 0) (not32 (2 ^ (b % 8)))))
    else bytes

-- `for(i = 0; i < count; i++)` from the block `b`, with the rounds left and the step.
unfoldable pub bit_loop : (List ℕ → ℕ → List ℕ) → ℕ → ℕ → List ℕ → List ℕ
bit_loop step zero b bytes = bytes
bit_loop step (suc n) b bytes = bit_loop step n (u64 (b + 1)) (step bytes b)

unfoldable pub update_bitmap : Ctx → Option (List ℕ) → (List ℕ → List ℕ) → Ctx
update_bitmap ctx none f = ctx
update_bitmap ctx (some bytes) f = record ctx { bitmap = some (f bytes) }

unfoldable pub bitmap_set : Ctx → ℕ → ℕ → Ctx
unfolding update_bitmap
bitmap_set ctx lba count =
    update_bitmap ctx ctx.bitmap (bit_loop (set_bit ctx.bitmap_size) count lba)

unfoldable pub bitmap_clear : Ctx → ℕ → ℕ → Ctx
unfolding update_bitmap
bitmap_clear ctx lba count =
    update_bitmap ctx ctx.bitmap (bit_loop (clear_bit ctx.bitmap_size) count lba)

-- The bit of block `lba` in the bytes: `(bitmap[lba / 8] >> (lba % 8)) & 1`.
unfoldable pub bytes_is_set : ℕ → List ℕ → ℕ → ℕ
bytes_is_set size bytes lba =
    if leb size (lba / 8) then 0 else bit_and (get_or bytes (lba / 8) 0 / 2 ^ (lba % 8)) 1

unfoldable pub is_set_of : ℕ → Option (List ℕ) → ℕ → ℕ
is_set_of size none lba = 0
is_set_of size (some bytes) lba = bytes_is_set size bytes lba

unfoldable pub bitmap_is_set : Ctx → ℕ → ℕ
unfolding is_set_of
bitmap_is_set ctx lba = is_set_of ctx.bitmap_size ctx.bitmap lba
