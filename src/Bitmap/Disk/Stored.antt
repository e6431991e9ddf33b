-- ===== src/Bitmap/Disk/Stored.antt =====
-- What the blocks of the bitmap hold after `obmafs3_bitmap_write` (src/lib/bitmap.c).
use obmafs.Prelude.{
  ℕ, zero, suc, ◌+◌, ◌-◌, ◌*◌, ◌/◌, ◌<◌, ◌≤◌, ◌^◌, ◌≡◌, refl, ◌∙◌, ap, sym, subst, some, List, ◌∷◌,
  [], ◌++◌, ◌==◌, if◌then◌else◌, take, drop, replicate, length, length-append, length-replicate,
  length-take, length-drop, take-append, drop-append, u64, arith, Bool-cases, inl, inr,
}
use obmafs.Context.{Ctx, total_blocks, Result, ok, err}
use obmafs.Codec.RoundTrip.{Fits, length-pack}
use obmafs.Device.{Device, block_read, block_write}
use obmafs.Device.Blocks.{block_read-block_write_same, block_read-block_write_ne}
use obmafs.Btree.Header.{checksum_block}
use obmafs.Bitmap.Disk.{
  bitmap_magic, bitmap_header_widths, hdr_size, room_of, copy_size, payload, bitmap_header,
  block_at, next_write, write_loop,
}

-- The bitmap is in memory with the size the volume needs, and its blocks on the disk lie in the
-- volume and have room for it.
pub record IsStorable (ctx : Ctx) (bytes : List ℕ) : Type 0 where
  pub loaded : ctx.bitmap ≡ some bytes
  pub size : length bytes ≡ ctx.bitmap_size
  pub needed : ctx.bitmap_size ≡ u64 (total_blocks ctx + 7) / 8
  pub header : hdr_size ≤ ctx.sb.block_size
  pub room : hdr_size + ctx.bitmap_size ≤ ctx.sb.bitmap_blocks * ctx.sb.block_size
  pub inside : ctx.sb.bitmap_lba + ctx.sb.bitmap_blocks ≤ total_blocks ctx
  pub small : ctx.sb.total_bytes < 2 ^ 63
  pub blocks : total_blocks ctx < 2 ^ 63
  pub block : ctx.sb.block_size < 2 ^ 63
  pub hint : ctx.next_free_lba < 2 ^ 64

module _ (dev : Device) (xxh64 : List ℕ → ℕ) (hash_lt : (bs : List ℕ) → xxh64 bs < 2 ^ 64)
    {ctx : Ctx} {bytes : List ℕ} (s : IsStorable ctx bytes) where
  open dev use {Disk}

  pub room_of_lem :
      (i : ℕ) → room_of ctx i ≡ (if i == 0 then ctx.sb.block_size - hdr_size else ctx.sb.block_size)
  unfolding room_of
  room_of_lem i = ground (arith, s.header, s.block)

  pub copy_size-le : (i left : ℕ) → copy_size ctx i left ≤ left
  unfolding copy_size
  copy_size-le i left = ground arith

  copy_size-fits :
      (i left : ℕ) → copy_size ctx i left + (if i == 0 then hdr_size else 0) ≤ ctx.sb.block_size
  unfolding copy_size
  copy_size-fits i left = ground (arith, room_of_lem i, s.header)

  pub bitmap_header-Fits : Fits bitmap_header_widths (
      bitmap_magic
      ∷ total_blocks ctx
      ∷ ctx.next_free_lba
      ∷ checksum_block xxh64 (take ctx.bitmap_size bytes)
      ∷ [])
  bitmap_header-Fits = ground (arith, s.blocks, s.hint, hash_lt (take ctx.bitmap_size bytes))

  pub length-bitmap_header : length (bitmap_header dev xxh64 ctx bytes) ≡ hdr_size
  unfolding bitmap_header
  length-bitmap_header = length-pack bitmap_header_widths _ bitmap_header-Fits

  length_chunk :
      (i offset left : ℕ)
      → offset + left ≤ length bytes
      → length (take (copy_size ctx i left) (drop offset bytes)) ≡ copy_size ctx i left
  length_chunk i offset left h =
      length-take (copy_size ctx i left) (drop offset bytes)
        (omega (arith, length-drop offset bytes, copy_size-le i left))

  pub length-block_at :
      (i offset left : ℕ)
      → offset + left ≤ length bytes
      → length (block_at dev xxh64 ctx bytes i offset left) ≡ ctx.sb.block_size
  unfolding block_at
  length-block_at i offset left h =
      let n = copy_size ctx i left in
      let chunk = take n (drop offset bytes) in
      let len = length_chunk i offset left h in
      let fits = copy_size-fits i left in
      elim (Bool-cases (i == 0)) [
        | inl first ↦
            let pad = replicate {A = ℕ} (ctx.sb.block_size - hdr_size - n) 0 in
            rw first (
              omega (
                arith,
                rw first at fits,
                len,
                length-append (bitmap_header dev xxh64 ctx bytes) (chunk ++ pad),
                length-append chunk pad,
                length-bitmap_header,
                length-replicate {A = ℕ} (ctx.sb.block_size - hdr_size - n) 0,
              ))
        | inr later ↦
            let pad = replicate {A = ℕ} (ctx.sb.block_size - n) 0 in
            rw later (
              omega (
                arith,
                rw later at fits,
                len,
                length-append chunk pad,
                length-replicate {A = ℕ} (ctx.sb.block_size - n) 0,
              ))
      ]

  -- What the reader copies from a block is what the writer put there.
  pub payload-block_at :
      (i offset left : ℕ)
      → offset + left ≤ length bytes
      → take (copy_size ctx i left) (payload i (block_at dev xxh64 ctx bytes i offset left))
        ≡ take (copy_size ctx i left) (drop offset bytes)
  unfolding payload block_at
  payload-block_at i offset left h =
      let n = copy_size ctx i left in
      let chunk = take n (drop offset bytes) in
      let len = length_chunk i offset left h in
      elim (Bool-cases (i == 0)) [
        | inl first ↦
            let pad = replicate {A = ℕ} (ctx.sb.block_size - hdr_size - n) 0 in
            rw first (
              ap (take n) (
                drop-append hdr_size (bitmap_header dev xxh64 ctx bytes) (chunk ++ pad)
                  length-bitmap_header)
              ∙ take-append n chunk pad len)
        | inr later ↦
            rw later (take-append n chunk (replicate {A = ℕ} (ctx.sb.block_size - n) 0) len)
      ]

  -- Reading block `x` of the volume.
  abbrev pub content : Disk → ℕ → Result (List ℕ)
  content d x = block_read dev ctx d x ctx.sb.block_size

  -- The blocks of the bitmap from `i` on hold the rest of the bytes.
  abbrev pub Stored : Disk → (rounds i offset left : ℕ) → Type 0
  Stored d zero i offset left = Unit {0}
  Stored d (suc rounds) i offset left =
      (content d (ctx.sb.bitmap_lba + i) ≡ ok (block_at dev xxh64 ctx bytes i offset left))
      × Stored d rounds (i + 1) (offset + copy_size ctx i left) (left - copy_size ctx i left)

  next_write-ok :
      (r : Result (Unit {0}) × Disk) (next : Disk → Result (Unit {0}) × Disk)
      → (next_write dev xxh64 r next).0 ≡ ok tt
      → (r.0 ≡ ok tt) × (next_write dev xxh64 r next ≡ next r.1)
  unfolding next_write
  next_write-ok (ok u, d) next h = (refl, refl)
  next_write-ok (err e, d) next h = cc

  -- One round, without the wrap of the indices.
  write_loop-suc :
      (rounds i offset left : ℕ) (d : Disk)
      → i + suc rounds ≤ ctx.sb.bitmap_blocks
      → let n = copy_size ctx i left in
        write_loop dev xxh64 ctx bytes (suc rounds) i offset left d
        ≡ next_write dev xxh64
            (block_write dev ctx d
              (ctx.sb.bitmap_lba + i)
              (block_at dev xxh64 ctx bytes i offset left))
            (λ d'. write_loop dev xxh64 ctx bytes rounds (i + 1) (offset + n) (left - n) d')
  unfolding write_loop
  write_loop-suc rounds i offset left d h =
      let here : u64 (ctx.sb.bitmap_lba + i) ≡ ctx.sb.bitmap_lba + i =
        omega (arith, s.inside, s.blocks) in
      let next : u64 (i + 1) ≡ i + 1 = omega (arith, s.inside, s.blocks) in rw (here, next)

  this_inside :
      (i rounds : ℕ)
      → i + suc rounds ≤ ctx.sb.bitmap_blocks
      → ctx.sb.bitmap_lba + i < total_blocks ctx
  this_inside i rounds fits = omega (arith, s.inside)

  -- The loop writes only to the blocks of the bitmap from `i` on.
  write_loop-keeps :
      (rounds i offset left x : ℕ) (d : Disk)
      → i + rounds ≤ ctx.sb.bitmap_blocks
      → offset + left ≤ length bytes
      → x < ctx.sb.bitmap_lba + i
      → (write_loop dev xxh64 ctx bytes rounds i offset left d).0 ≡ ok tt
      → content (write_loop dev xxh64 ctx bytes rounds i offset left d).1 x ≡ content d x
  unfolding write_loop
  write_loop-keeps zero i offset left x d fits inside before done = refl
  write_loop-keeps (suc rounds) i offset left x d fits inside before done =
      let n = copy_size ctx i left in
      let block = block_at dev xxh64 ctx bytes i offset left in
      let written = block_write dev ctx d (ctx.sb.bitmap_lba + i) block in
      let round = write_loop-suc rounds i offset left d fits in
      let rest =
        next_write-ok written
          (λ d'. write_loop dev xxh64 ctx bytes rounds (i + 1) (offset + n) (left - n) d')
          (ap (λ r. r.0) (sym round) ∙ done) in
      ap (λ r. content r.1 x) (round ∙ rest.1)
      ∙ write_loop-keeps rounds (i + 1) (offset + n) (left - n) x written.1 (omega arith)
          (omega (arith, copy_size-le i left)) (omega arith)
          (ap (λ r. r.0) (sym (round ∙ rest.1)) ∙ done)
      ∙ block_read-block_write_ne dev ctx d (ctx.sb.bitmap_lba + i) x block s.small
          (this_inside i rounds fits) (omega (arith, this_inside i rounds fits)) (omega arith)
          (length-block_at i offset left inside)

  pub write_loop-Stored :
      (rounds i offset left : ℕ) (d : Disk)
      → i + rounds ≤ ctx.sb.bitmap_blocks
      → offset + left ≤ length bytes
      → (write_loop dev xxh64 ctx bytes rounds i offset left d).0 ≡ ok tt
      → Stored (write_loop dev xxh64 ctx bytes rounds i offset left d).1 rounds i offset left
  write_loop-Stored zero i offset left d fits inside done = tt
  write_loop-Stored (suc rounds) i offset left d fits inside done =
      let n = copy_size ctx i left in
      let block = block_at dev xxh64 ctx bytes i offset left in
      let written = block_write dev ctx d (ctx.sb.bitmap_lba + i) block in
      let after =
        λ (e : Disk). write_loop dev xxh64 ctx bytes rounds (i + 1) (offset + n) (left - n) e in
      let round = write_loop-suc rounds i offset left d fits in
      let rest = next_write-ok written after (ap (λ r. r.0) (sym round) ∙ done) in
      let still : (after written.1).0 ≡ ok tt = ap (λ r. r.0) (sym (round ∙ rest.1)) ∙ done in
      let left_inside : offset + n + (left - n) ≤ length bytes =
        omega (arith, copy_size-le i left) in
      subst (λ r. Stored r.1 (suc rounds) i offset left) (sym (round ∙ rest.1))
        (
          write_loop-keeps rounds (i + 1) (offset + n) (left - n) (ctx.sb.bitmap_lba + i) written.1
                (omega arith) left_inside (omega arith) still
              ∙ subst (λ m. block_read dev ctx written.1 (ctx.sb.bitmap_lba + i) m ≡ ok block)
                  (length-block_at i offset left inside)
                  (block_read-block_write_same dev ctx d (ctx.sb.bitmap_lba + i) block rest.0),
          write_loop-Stored rounds (i + 1) (offset + n) (left - n) written.1 (omega arith)
              left_inside still,
        )
