-- ===== src/Device.antt =====
-- The image file: `pread` and `pwrite` are the operating system's, so they are parameters with the
-- behaviour that the code relies on. `obmafs3_block_read` and `obmafs3_block_write` of
-- src/lib/io.c stand on them.
pub mod Memory
pub mod Blocks
use obmafs.Prelude.{
  ℕ, ◌+◌, ◌*◌, ◌≤◌, ◌≡◌, ◌⊎◌, Bool, true, false, Option, none, some, List, length, u64,
}
use obmafs.Context.{Ctx, Superblock, Result, ok, err, Error, io}

-- A file of bytes. A read or write that fails or is short gives `none` and `false`. The image is a
-- block device or a file that has its full size already: a write does not move its end, so what is
-- apart from the bytes written reads as before, or fails as before.
pub record Device : Type 1 where
  pub Disk : Type 0
  pub pread : Disk → (offset size : ℕ) → Option (List ℕ)
  pub pwrite : Disk → (offset : ℕ) → List ℕ → Bool × Disk
  pub length-pread :
      (d : Disk) (offset size : ℕ) {bs : List ℕ} → pread d offset size ≡ some bs → length bs ≡ size
  pub pread-pwrite_same :
      (d : Disk) (offset : ℕ) (bs : List ℕ)
      → (pwrite d offset bs).0 ≡ true
      → pread (pwrite d offset bs).1 offset (length bs) ≡ some bs
  pub pread-pwrite_apart :
      (d : Disk) (offset : ℕ) (bs : List ℕ) (o n : ℕ)
      → (o + n ≤ offset) ⊎ (offset + length bs ≤ o)
      → pread (pwrite d offset bs).1 o n ≡ pread d o n

module _ (dev : Device) where
  open dev use {Disk, pread, pwrite}

  pub to_result : Option (List ℕ) → Result (List ℕ)
  to_result none = err io
  to_result (some bs) = ok bs

  unfoldable pub block_read : Ctx → Disk → (lba size : ℕ) → Result (List ℕ)
  block_read ctx d lba size = to_result (pread d (u64 (lba * ctx.sb.block_size)) size)

  unfoldable pub status : Bool → Result (Unit {0})
  status true = ok tt
  status false = err io

  unfoldable pub block_write : Ctx → Disk → (lba : ℕ) → List ℕ → Result (Unit {0}) × Disk
  block_write ctx d lba bs =
      let (done, d') = pwrite d (u64 (lba * ctx.sb.block_size)) bs in (status done, d')
