-- ===== src/Device/Blocks.antt =====
-- Reading a block after a write, to it or to another block (src/lib/io.c).
use obmafs.Prelude.{
  ℕ, ◌+◌, ◌*◌, ◌/◌, ◌^◌, ◌≤◌, ◌<◌, ◌≡◌, ◌≢◌, inl, inr, refl, Bool, true, false, Option, none, some,
  List, length, u64, arith, dec_lt, ap,
}
use obmafs.Context.{Ctx, total_blocks, ok, err, Error, io}
use obmafs.Device.{Device, to_result, status, block_read, block_write}

next_block : (a c b : ℕ) → a < c → a * b + b ≤ c * b
next_block a c b h = grind arith

block_fits : (total b lba : ℕ) → lba < total / b → lba * b + b ≤ total
block_fits total b lba h = omega (arith, next_block lba (total / b) b h)

module _ (dev : Device) (ctx : Ctx) where
  open dev use {Disk, pread, pwrite, length-pread, pread-pwrite_same, pread-pwrite_apart}

  status-ok : (b : Bool) → status dev b ≡ ok tt → b ≡ true
  unfolding status
  status-ok true h = refl
  status-ok false h = cc

  to_result-ok : (o : Option (List ℕ)) {bs : List ℕ} → to_result dev o ≡ ok bs → o ≡ some bs
  unfolding to_result
  to_result-ok none h = cc
  to_result-ok (some bs) h = cc

  to_result-err : (o : Option (List ℕ)) {e : Error} → to_result dev o ≡ err e → e ≡ io
  unfolding to_result
  to_result-err none h = cc
  to_result-err (some bs) h = cc

  pub block_read-io :
      (d : Disk) (lba size : ℕ) {e : Error} → block_read dev ctx d lba size ≡ err e → e ≡ io
  unfolding block_read
  block_read-io d lba size h = to_result-err (pread d (u64 (lba * ctx.sb.block_size)) size) h

  pub length-block_read :
      (d : Disk) (lba size : ℕ) {bs : List ℕ}
      → block_read dev ctx d lba size ≡ ok bs
      → length bs ≡ size
  unfolding block_read
  length-block_read d lba size h =
      length-pread d (u64 (lba * ctx.sb.block_size)) size (to_result-ok _ h)

  pub block_write-ok :
      (d : Disk) (lba : ℕ) (bs : List ℕ)
      → (pwrite d (u64 (lba * ctx.sb.block_size)) bs).0 ≡ true
      → (block_write dev ctx d lba bs).0 ≡ ok tt
  unfolding block_write status
  block_write-ok d lba bs h = rw h

  -- What was written is read back.
  pub block_read-block_write_same :
      (d : Disk) (lba : ℕ) (bs : List ℕ)
      → (block_write dev ctx d lba bs).0 ≡ ok tt
      → block_read dev ctx (block_write dev ctx d lba bs).1 lba (length bs) ≡ ok bs
  unfolding block_read block_write to_result
  block_read-block_write_same d lba bs h =
      rw (pread-pwrite_same d (u64 (lba * ctx.sb.block_size)) bs (status-ok _ h))

  -- A block of the volume lies at `lba * block_size`, with no wrap.
  pub offset_lem :
      (lba : ℕ)
      → ctx.sb.total_bytes < 2 ^ 63
      → lba < total_blocks ctx
      → (u64 (lba * ctx.sb.block_size) ≡ lba * ctx.sb.block_size)
        × (lba * ctx.sb.block_size + ctx.sb.block_size ≤ ctx.sb.total_bytes)
  offset_lem lba small inside =
      let fits = block_fits ctx.sb.total_bytes ctx.sb.block_size lba inside in
      (omega (arith, fits), fits)

  -- A write to one block leaves every other block of the volume as it was, whether the write
  -- succeeds or fails.
  pub block_read-block_write_ne :
      (d : Disk) (a b : ℕ) (bs : List ℕ)
      → ctx.sb.total_bytes < 2 ^ 63
      → a < total_blocks ctx
      → b < total_blocks ctx
      → a ≢ b
      → length bs ≡ ctx.sb.block_size
      → block_read dev ctx (block_write dev ctx d a bs).1 b ctx.sb.block_size
        ≡ block_read dev ctx d b ctx.sb.block_size
  unfolding block_read block_write
  block_read-block_write_ne d a b bs small in_a in_b ne len =
      let oa = offset_lem a small in_a in
      let ob = offset_lem b small in_b in
      ap (to_result dev) (
        pread-pwrite_apart d (u64 (a * ctx.sb.block_size)) bs (u64 (b * ctx.sb.block_size))
          ctx.sb.block_size
          (elim (dec_lt a b) [
            | yes before ↦ inr (omega (arith, oa, ob, next_block a b ctx.sb.block_size before))
            | no after ↦ inl (omega (arith, oa, ob, next_block b a ctx.sb.block_size (omega arith)))
          ]))
