-- ===== src/Superblock.antt =====
-- Reading, writing and validating the superblock: src/lib/superblock.c, on the layout of
-- src/include/superblock.h.
mod Layout
pub mod RoundTrip
pub use Layout.*
use obmafs.Prelude.{
  ℕ, ◌+◌, ◌-◌, ◌*◌, ◌/◌, ◌<◌, ◌^◌, Bool, true, false, Option, none, some, List, ◌++◌, take, drop,
  ltb, ◌==◌, ◌||◌, ◌&&◌, not, if◌then◌else◌, u64,
}
use obmafs.Context.{Superblock, Result, ok, err, Error, io, badmagic, inval}
use obmafs.Codec.{pack, unpack}
use obmafs.Device.{Device}
use obmafs.Btree.Header.{checksum_block}
use obmafs.Superblock.Layout.{
  sb_v1_widths, sb_ext_widths, sb_v1_fields, sb_ext_fields, sb_of, sb_magic, sb_size, sb_v1_size,
}

-- OBMAFS3_BACKUP_SB_LBA, on 64 bits.
abbrev pub backup_sb_lba : ℕ → ℕ → ℕ
backup_sb_lba total_bytes block_size = u64 (total_bytes / block_size + (2 ^ 64 - 1))

pub sb_image : Superblock → List ℕ
sb_image sb = pack sb_v1_widths (sb_v1_fields sb) ++ pack sb_ext_widths (sb_ext_fields sb)

pub sb_parse : List ℕ → Superblock
sb_parse buf = sb_of (unpack sb_v1_widths buf) (unpack sb_ext_widths (drop sb_v1_size buf))

unfoldable pub sb_validate : Superblock → Result (Unit {0})
sb_validate sb =
    if not (sb.magic == sb_magic)
    then err badmagic
    else if (sb.block_size == 0) || (sb.dedup_block_size == 0)
    then err inval
    else if sb.total_bytes == 0
    then err inval
    else if (sb.catalog_lba == 0) || (sb.inode_lba == 0)
    then err inval
    else ok tt

module _ (dev : Device) (xxh64 : List ℕ → ℕ) where
  open dev use {Disk, pread, pwrite}

  -- The checksums of the two parts, each with its own field zeroed.
  pub sb_checksum : Superblock → ℕ
  sb_checksum sb =
      checksum_block xxh64 (pack sb_v1_widths (sb_v1_fields (record sb { checksum = 0 })))

  pub sb_checksum2 : Superblock → ℕ
  sb_checksum2 sb =
      checksum_block xxh64 (pack sb_ext_widths (sb_ext_fields (record sb { checksum2 = 0 })))

  -- The superblock as it is written.
  unfoldable pub sealed_sb : Superblock → Superblock
  sealed_sb sb = record sb { checksum = sb_checksum sb; checksum2 = sb_checksum2 sb }

  unfoldable pub parsed : Option (List ℕ) → Result Superblock
  parsed none = err io
  parsed (some buf) = ok (sb_parse buf)

  unfoldable pub sb_read : Disk → Result Superblock
  sb_read d = parsed (pread d 0 sb_size)

  unfoldable pub status : Bool × Disk → Result (Unit {0}) × Disk
  status (true, d) = (ok tt, d)
  status (false, d) = (err io, d)

  -- The backup in the last block, after the primary was written.
  unfoldable pub write_backup : Superblock → Bool × Disk → Result (Unit {0}) × Disk
  write_backup tmp (false, d) = (err io, d)
  write_backup tmp (true, d) =
      let backup_lba = backup_sb_lba tmp.total_bytes tmp.block_size in
      if ltb 0 tmp.total_bytes && ltb 0 tmp.block_size && ltb 0 backup_lba
      then status (pwrite d (u64 (backup_lba * tmp.block_size)) (sb_image tmp))
      else (ok tt, d)

  unfoldable pub sb_write : Disk → Superblock → Result (Unit {0}) × Disk
  sb_write d sb = let tmp = sealed_sb sb in write_backup tmp (pwrite d 0 (sb_image tmp))

  -- `checksum_ok`: an extension checksum of zero is not looked at.
  pub checksums_match : Superblock → Bool
  checksums_match sb =
      (sb.checksum == sb_checksum sb) && ((sb.checksum2 == 0) || (sb.checksum2 == sb_checksum2 sb))

  with_checksum_ok : Result Superblock → Result (Superblock × Bool)
  with_checksum_ok (err e) = err e
  with_checksum_ok (ok sb) = ok (sb, checksums_match sb)

  pub sb_read_lenient : Disk → Result (Superblock × Bool)
  sb_read_lenient d = with_checksum_ok (sb_read d)

  pub sb_read_backup : Disk → (block_size total_bytes : ℕ) → Result Superblock
  sb_read_backup d block_size total_bytes =
      let backup_lba = backup_sb_lba total_bytes block_size in
      if (block_size == 0) || (total_bytes == 0)
      then err inval
      else if backup_lba == 0
      then err inval
      else parsed (pread d (u64 (backup_lba * block_size)) sb_size)

  pub sb_read_backup_lenient : Disk → (block_size total_bytes : ℕ) → Result (Superblock × Bool)
  sb_read_backup_lenient d block_size total_bytes =
      with_checksum_ok (sb_read_backup d block_size total_bytes)
