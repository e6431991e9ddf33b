-- ===== src/Bitmap/Disk.antt =====
-- The bitmap on the disk: `obmafs3_bitmap_read` and `obmafs3_bitmap_write` of src/lib/bitmap.c. The
-- first of its blocks starts with `struct bitmap_header` (src/include/defs.h).
pub mod Outcome
pub mod Stored
pub mod RoundTrip
use obmafs.Prelude.{
  ℕ, zero, suc, ◌+◌, ◌-◌, ◌*◌, ◌/◌, ◌<◌, ◌^◌, Option, none, some, Bool, true, false, List, [], ◌∷◌,
  ◌++◌, ltb, ◌==◌, ◌&&◌, not, if◌then◌else◌, take, drop, replicate, length, get_or, u64,
}
use obmafs.Context.{Ctx, total_blocks, Result, ok, err, Error, inval, nomem, badmagic, checksum}
use obmafs.Codec.{pack, unpack}
use obmafs.Device.{Device, block_read, block_write}
use obmafs.Btree.Header.{checksum_block}

-- OBMAFS3_BITMAP_MAGIC
abbrev pub bitmap_magic : ℕ
bitmap_magic = 0x50414D42414D424F

-- The fields `magic`, `total_blocks`, `next_free_lba` and `checksum`, 56 bytes together.
abbrev pub bitmap_header_widths : List ℕ
bitmap_header_widths = 8 ∷ 8 ∷ 8 ∷ 32 ∷ []

abbrev pub hdr_size : ℕ
hdr_size = 56

-- `block_size - hdr_size` as a `size_t` in the first block, `block_size` in the others.
pub room_of : Ctx → ℕ → ℕ
room_of ctx i = if i == 0 then u64 (ctx.sb.block_size + (2 ^ 64 - hdr_size)) else ctx.sb.block_size

-- How many bytes of the bitmap block `i` holds.
pub copy_size : Ctx → (i bytes_remaining : ℕ) → ℕ
copy_size ctx i bytes_remaining =
    if ltb bytes_remaining (room_of ctx i) then bytes_remaining else room_of ctx i

-- `memcpy(bitmap + offset, chunk, length chunk)`
pub patch : List ℕ → ℕ → List ℕ → List ℕ
patch bytes offset chunk = take offset bytes ++ (chunk ++ drop (offset + length chunk) bytes)

-- Where the bitmap starts in a block.
pub payload : ℕ → List ℕ → List ℕ
payload i buf = if i == 0 then drop hdr_size buf else buf

abbrev pub next_free_of : List ℕ → ℕ
next_free_of buf = get_or (unpack bitmap_header_widths buf) 2 0

-- `bitmap_bytes`
abbrev pub bytes_needed : Ctx → ℕ
bytes_needed ctx = u64 (total_blocks ctx + 7) / 8

module _ (dev : Device) (xxh64 : List ℕ → ℕ) where
  open dev use {Disk}

  -- The header, with the checksum of the bitmap.
  pub bitmap_header : Ctx → List ℕ → List ℕ
  bitmap_header ctx bytes = pack bitmap_header_widths (
      bitmap_magic
      ∷ total_blocks ctx
      ∷ ctx.next_free_lba
      ∷ checksum_block xxh64 (take ctx.bitmap_size bytes)
      ∷ [])

  -- What is written to block `i` of the bitmap.
  pub block_at : Ctx → List ℕ → (i offset bytes_remaining : ℕ) → List ℕ
  block_at ctx bytes i offset bytes_remaining =
      let n = copy_size ctx i bytes_remaining in
      let chunk = take n (drop offset bytes) in
      if i == 0
      then bitmap_header ctx bytes ++ (chunk ++ replicate (ctx.sb.block_size - hdr_size - n) 0)
      else chunk ++ replicate (ctx.sb.block_size - n) 0

  unfoldable pub next_write :
      Result (Unit {0}) × Disk → (Disk → Result (Unit {0}) × Disk) → Result (Unit {0}) × Disk
  next_write (ok u, d) next = next d
  next_write (err e, d) next = (err e, d)

  -- `for(i = 0; i < bitmap_blocks; i++)`, with the rounds left.
  unfoldable pub write_loop :
      Ctx → List ℕ → (rounds i offset bytes_remaining : ℕ) → Disk → Result (Unit {0}) × Disk
  write_loop ctx bytes zero i offset bytes_remaining d = (ok tt, d)
  write_loop ctx bytes (suc rounds) i offset bytes_remaining d =
      let n = copy_size ctx i bytes_remaining in
      next_write
        (block_write dev ctx d (u64 (ctx.sb.bitmap_lba + i))
          (block_at ctx bytes i offset bytes_remaining))
        (λ d'. write_loop ctx bytes rounds (u64 (i + 1)) (offset + n) (bytes_remaining - n) d')

  unfoldable pub write_bytes : Bool → Ctx → Option (List ℕ) → Disk → Result (Unit {0}) × Disk
  write_bytes calloc_ok ctx none d = (err inval, d)
  write_bytes calloc_ok ctx (some bytes) d =
      if calloc_ok
      then write_loop ctx bytes ctx.sb.bitmap_blocks 0 0 ctx.bitmap_size d
      else (err nomem, d)

  -- `calloc_ok` says whether the block buffer could be allocated.
  unfoldable pub bitmap_write : Bool → Ctx → Disk → Result (Unit {0}) × Disk
  bitmap_write calloc_ok ctx d = write_bytes calloc_ok ctx ctx.bitmap d

  -- The bytes so far, or an error, and the hint in either case.
  and_read : Result (List ℕ) → ℕ → (List ℕ → Result (List ℕ) × ℕ) → Result (List ℕ) × ℕ
  and_read (err e) next_free_lba next = (err e, next_free_lba)
  and_read (ok buf) next_free_lba next = next buf

  -- The loop over the blocks, with the rounds left.
  pub read_loop :
      Ctx
      → Disk
      → (rounds i offset bytes_remaining : ℕ) → List ℕ
      → (next_free_lba : ℕ) → Result (List ℕ) × ℕ
  read_loop ctx d zero i offset bytes_remaining bitmap next_free_lba = (ok bitmap, next_free_lba)
  read_loop ctx d (suc rounds) i offset bytes_remaining bitmap next_free_lba =
      let n = copy_size ctx i bytes_remaining in
      and_read (block_read dev ctx d (u64 (ctx.sb.bitmap_lba + i)) ctx.sb.block_size) next_free_lba
        (λ buf.
          let rest =
            read_loop ctx d rounds (u64 (i + 1)) (offset + n) (bytes_remaining - n)
              (patch bitmap offset (take n (payload i buf)))
              (if i == 0 then next_free_of buf else next_free_lba) in
          if (i == 0) && not (get_or (unpack bitmap_header_widths buf) 0 0 == bitmap_magic)
          then (err badmagic, next_free_lba)
          else rest)

  -- The stored checksum matches, or the header cannot be read again.
  pub checksum_matches : Result (List ℕ) → List ℕ → Bool
  checksum_matches (err e) bytes = true
  checksum_matches (ok buf) bytes =
      get_or (unpack bitmap_header_widths buf) 3 0 == checksum_block xxh64 bytes

  finish : Ctx → Disk → Result (List ℕ) × ℕ → Ctx × Result (Unit {0})
  finish ctx d (err e, next_free_lba) =
      (record ctx { bitmap = none; next_free_lba = next_free_lba }, err e)
  finish ctx d (ok bytes, next_free_lba) =
      if checksum_matches (block_read dev ctx d ctx.sb.bitmap_lba ctx.sb.block_size) bytes
      then (record ctx { bitmap = some bytes; next_free_lba = next_free_lba }, ok tt)
      else (record ctx { bitmap = none; next_free_lba = next_free_lba }, err checksum)

  -- `calloc_ok` and `malloc_ok` say whether the bitmap and the block buffer could be allocated.
  pub bitmap_read : (calloc_ok malloc_ok : Bool) → Ctx → Disk → Ctx × Result (Unit {0})
  bitmap_read calloc_ok malloc_ok ctx d =
      let sized = record ctx { bitmap = none; bitmap_size = bytes_needed ctx } in
      if not calloc_ok
      then (record ctx { bitmap = none }, err nomem)
      else if not malloc_ok
      then (sized, err nomem)
      else finish sized d (
          read_loop sized d ctx.sb.bitmap_blocks 0 0 (bytes_needed ctx)
            (replicate (bytes_needed ctx) 0) ctx.next_free_lba)
