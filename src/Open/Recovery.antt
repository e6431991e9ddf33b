-- ===== src/Open/Recovery.antt =====
-- Which superblock `obmafs3_open_flags` (src/lib/io.c) works with.
use obmafs.Prelude.{
  ℕ, ◌+◌, ◌*◌, ◌/◌, ◌<◌, ◌≤◌, ◌^◌, ◌≡◌, ◌≢◌, refl, ◌∙◌, ap, subst, true, false, none, some, List,
  length, ltb, ◌==◌, arith, eq→==,
}
use native.Mathlib.Nat.{div-mul-le_self}
use obmafs.Context.{Superblock, ok}
use obmafs.Device.{Device}
use obmafs.Superblock.{sb_magic, sb_validate, sealed_sb, sb_read, sb_read_backup, sb_write}
use obmafs.Superblock.RoundTrip.{SbFits, HasBackup, sb_read_backup-sb_write}
use obmafs.Open.{usable, validated, fits_volume, to_result, probe, find_superblock}

-- What validation asks of a superblock.
pub record IsUsable (sb : Superblock) : Type 0 where
  pub magic : sb.magic ≡ sb_magic
  pub block_size : sb.block_size ≢ 0
  pub dedup_block_size : sb.dedup_block_size ≢ 0
  pub total_bytes : sb.total_bytes ≢ 0
  pub catalog : sb.catalog_lba ≢ 0
  pub inode : sb.inode_lba ≢ 0

validate-ok : (sb : Superblock) → IsUsable sb → sb_validate sb ≡ ok tt
unfolding sb_validate
validate-ok sb h =
    ground (arith, h.magic, h.block_size, h.dedup_block_size, h.total_bytes, h.catalog, h.inode)

pub validate-IsUsable : (sb : Superblock) → sb_validate sb ≡ ok tt → IsUsable sb
unfolding sb_validate
validate-IsUsable sb h = record {
  magic = ground arith;
  block_size = ground arith;
  dedup_block_size = ground arith;
  total_bytes = ground arith;
  catalog = ground arith;
  inode = ground arith;
}

module _ (dev : Device) (xxh64 : List ℕ → ℕ) (hash_lt : (bs : List ℕ) → xxh64 bs < 2 ^ 64) where
  open dev use {Disk, pwrite}

  sealed_sb-IsUsable : (sb : Superblock) → IsUsable sb → IsUsable (sealed_sb dev xxh64 sb)
  unfolding sealed_sb
  sealed_sb-IsUsable sb h = record {
    magic = h.magic;
    block_size = h.block_size;
    dedup_block_size = h.dedup_block_size;
    total_bytes = h.total_bytes;
    catalog = h.catalog;
    inode = h.inode;
  }

  fits_volume-sealed :
      (sb : Superblock)
      → IsUsable sb
      → fits_volume sb.block_size sb.total_bytes (usable (ok (sealed_sb dev xxh64 sb)))
        ≡ some (sealed_sb dev xxh64 sb)
  unfolding fits_volume usable validated sealed_sb
  fits_volume-sealed sb h =
      let block : (sb.block_size == sb.block_size) ≡ true = eq→== _ _ refl in
      let total : (sb.total_bytes == sb.total_bytes) ≡ true = eq→== _ _ refl in
      rw (validate-ok (sealed_sb dev xxh64 sb) (sealed_sb-IsUsable sb h), block, total)

  -- For a superblock that passes validation and whose fields fit, of a volume of two blocks or more of
  -- 4096 bytes and of less than 2 ^ 63 bytes, in a file of exactly the size that the superblock
  -- gives: after a successful `obmafs3_sb_write`, and after any bytes were written inside the first
  -- block, opening finds a superblock: the primary, if it still passes validation, or else the one
  -- that was written, from the backup.
  pub find_superblock-sb_write :
      (d : Disk) (sb : Superblock) (o : ℕ) (garbage : List ℕ)
      → HasBackup sb
      → SbFits sb
      → IsUsable sb
      → sb.block_size ≡ 4096
      → (sb_write dev xxh64 d sb).0 ≡ ok tt
      → o + length garbage ≤ sb.block_size
      → let d' = (pwrite (sb_write dev xxh64 d sb).1 o garbage).1 in
        ((s : Superblock)
          → usable (sb_read dev xxh64 d') ≡ some s
          → find_superblock dev xxh64 d' sb.total_bytes ≡ ok s)
        × (usable (sb_read dev xxh64 d') ≡ none
            → find_superblock dev xxh64 d' sb.total_bytes ≡ ok (sealed_sb dev xxh64 sb))
  unfolding find_superblock probe to_result
  find_superblock-sb_write d sb o garbage h fits good size done inside =
      let d' = (pwrite (sb_write dev xxh64 d sb).1 o garbage).1 in
      let two : sb.total_bytes / 4096 * 4096 ≤ sb.total_bytes =
        div-mul-le_self sb.total_bytes 4096 in
      let blocks : 2 ≤ sb.total_bytes / 4096 =
        subst (λ b. 2 ≤ sb.total_bytes / b) size h.two_blocks in
      let there : ltb 0 sb.total_bytes ≡ true = ground arith in
      let large : ltb sb.total_bytes 8192 ≡ false = ground arith in
      let backup : fits_volume 4096 sb.total_bytes
            (usable (sb_read_backup dev xxh64 d' 4096 sb.total_bytes))
          ≡ some (sealed_sb dev xxh64 sb) =
        subst
          (λ b.
            fits_volume b sb.total_bytes (usable (sb_read_backup dev xxh64 d' b sb.total_bytes))
            ≡ some (sealed_sb dev xxh64 sb))
          size
          (ap (λ r. fits_volume sb.block_size sb.total_bytes (usable r))
              (sb_read_backup-sb_write dev xxh64 hash_lt d sb o garbage h fits done inside)
            ∙ fits_volume-sealed sb good) in
      (λ s p. rw p, λ p. rw (p, there, large, backup))
