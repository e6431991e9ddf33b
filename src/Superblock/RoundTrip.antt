-- ===== src/Superblock/RoundTrip.antt =====
-- What is read back of a superblock that was written (src/lib/superblock.c).
use obmafs.Prelude.{
  ℕ, ◌+◌, ◌-◌, ◌*◌, ◌/◌, ◌<◌, ◌≤◌, ◌^◌, ◌≡◌, refl, Bool, true, false, some, List, [], length,
  length-append, drop-append, ltb, ◌==◌, ◌||◌, ◌&&◌, u64, arith, inl, inr, ap, subst, ◌∙◌, eq→==,
  ne→==, sym,
}
use mathlib.Core.List.{append-nil}
use native.Mathlib.Nat.{div-le_self, div-mul-le_self}
use obmafs.Context.{Superblock, ok}
use obmafs.Codec.{pack, unpack}
use obmafs.Codec.RoundTrip.{Fits, unpack-pack, length-pack}
use obmafs.Device.{Device}
use obmafs.Superblock.{
  sb_v1_widths, sb_ext_widths, sb_v1_fields, sb_ext_fields, sb_size, sb_v1_size, backup_sb_lba,
  sb_image, sb_parse, sb_checksum, sb_checksum2, sealed_sb, parsed, sb_read, status, write_backup,
  sb_write, checksums_match, with_checksum_ok, sb_read_lenient, sb_read_backup,
  sb_read_backup_lenient,
}

-- Each field fits its width.
pub record SbFits (sb : Superblock) : Type 0 where
  pub v1 : Fits sb_v1_widths (sb_v1_fields sb)
  pub ext : Fits sb_ext_widths (sb_ext_fields sb)

length-sb_image : (sb : Superblock) → SbFits sb → length (sb_image sb) ≡ sb_size
unfolding sb_image
length-sb_image sb fits = omega (
  arith,
  length-append (pack sb_v1_widths (sb_v1_fields sb)) (pack sb_ext_widths (sb_ext_fields sb)),
  length-pack sb_v1_widths (sb_v1_fields sb) fits.v1,
  length-pack sb_ext_widths (sb_ext_fields sb) fits.ext,
)

sb_parse-sb_image : (sb : Superblock) → SbFits sb → sb_parse (sb_image sb) ≡ sb
unfolding sb_parse sb_image
sb_parse-sb_image sb fits =
    let ext_bytes = pack sb_ext_widths (sb_ext_fields sb) in
    rw (
      unpack-pack sb_v1_widths (sb_v1_fields sb) ext_bytes fits.v1,
      drop-append sb_v1_size (pack sb_v1_widths (sb_v1_fields sb)) ext_bytes
          (length-pack sb_v1_widths (sb_v1_fields sb) fits.v1),
      ap (unpack sb_ext_widths) (sym (append-nil ext_bytes))
          ∙ unpack-pack sb_ext_widths (sb_ext_fields sb) [] fits.ext,
    )

-- The volume has a last block behind the first and behind the bytes of the primary, and its offset
-- does not wrap.
pub record HasBackup (sb : Superblock) : Type 0 where
  pub two_blocks : 2 ≤ sb.total_bytes / sb.block_size
  pub behind : sb_size ≤ (sb.total_bytes / sb.block_size - 1) * sb.block_size
  pub small : sb.total_bytes < 2 ^ 63

abbrev backup_offset : Superblock → ℕ
backup_offset sb = u64 (backup_sb_lba sb.total_bytes sb.block_size * sb.block_size)

last_block :
    (total b : ℕ)
    → 2 ≤ total / b
    → total < 2 ^ 63
    → (backup_sb_lba total b ≡ total / b - 1)
      × (u64 (backup_sb_lba total b * b) ≡ (total / b - 1) * b)
      × (b ≤ (total / b - 1) * b)
last_block total b two small =
    let q = total / b in
    let q_le = div-le_self total b in
    let fits = div-mul-le_self total b in
    let lba : backup_sb_lba total b ≡ q - 1 = omega arith in
    let least : b ≤ (q - 1) * b = grind arith in
    let most : (q - 1) * b ≤ q * b = grind arith in (lba, rw lba (omega arith), least)

factor_pos : (a b : ℕ) → 0 < a * b → 0 < b
factor_pos a b h = grind arith

block_size_pos : (sb : Superblock) → HasBackup sb → 0 < sb.block_size
block_size_pos sb h =
    factor_pos (sb.total_bytes / sb.block_size - 1) sb.block_size (omega (arith, h.behind))

backup_offset-lem :
    (sb : Superblock)
    → HasBackup sb
    → (sb_size ≤ backup_offset sb) × (0 < backup_sb_lba sb.total_bytes sb.block_size)
backup_offset-lem sb h =
    let last = last_block sb.total_bytes sb.block_size h.two_blocks h.small in
    (omega (arith, last, h.behind), omega (arith, last, h.two_blocks))

module _ (dev : Device) (xxh64 : List ℕ → ℕ) (hash_lt : (bs : List ℕ) → xxh64 bs < 2 ^ 64) where
  open dev use {Disk, pread, pwrite, pread-pwrite_same, pread-pwrite_apart}

  sealed_sb-SbFits : (sb : Superblock) → SbFits sb → SbFits (sealed_sb dev xxh64 sb)
  unfolding sealed_sb sb_checksum sb_checksum2
  sealed_sb-SbFits sb fits = record {
    v1 =
        ground
          (arith, fits.v1, hash_lt (pack sb_v1_widths (sb_v1_fields (record sb { checksum = 0 }))));
    ext = ground (
      arith,
      fits.ext,
      hash_lt (pack sb_ext_widths (sb_ext_fields (record sb { checksum2 = 0 }))),
    );
  }

  -- The checksums that were computed match.
  checksums_match-sealed_sb :
      (sb : Superblock) → checksums_match dev xxh64 (sealed_sb dev xxh64 sb) ≡ true
  unfolding checksums_match sealed_sb sb_checksum sb_checksum2
  checksums_match-sealed_sb sb =
      let one : ((sealed_sb dev xxh64 sb).checksum == (sealed_sb dev xxh64 sb).checksum) ≡ true =
        eq→== _ _ refl in
      let two : ((sealed_sb dev xxh64 sb).checksum2 == (sealed_sb dev xxh64 sb).checksum2) ≡ true =
        eq→== _ _ refl in
      ground arith

  status-ok :
      (w : Bool × Disk)
      → (status dev xxh64 w).0 ≡ ok tt
      → (w.0 ≡ true) × ((status dev xxh64 w).1 ≡ w.1)
  unfolding status
  status-ok (true, d) h = (refl, refl)
  status-ok (false, d) h = cc

  write_backup-ok :
      (tmp : Superblock) (w : Bool × Disk)
      → HasBackup tmp
      → (write_backup dev xxh64 tmp w).0 ≡ ok tt
      → let second = pwrite w.1 (backup_offset tmp) (sb_image tmp) in
        (w.0 ≡ true) × (second.0 ≡ true) × ((write_backup dev xxh64 tmp w).1 ≡ second.1)
  unfolding write_backup
  write_backup-ok tmp (false, d) h done = cc
  write_backup-ok tmp (true, d) h done =
      let off = backup_offset-lem tmp h in
      let test : (ltb 0 tmp.total_bytes
            && ltb 0 tmp.block_size
            && ltb 0 (backup_sb_lba tmp.total_bytes tmp.block_size))
          ≡ true =
        sizes tmp.total_bytes tmp.block_size (backup_sb_lba tmp.total_bytes tmp.block_size)
          (omega (arith, h.two_blocks, div-le_self tmp.total_bytes tmp.block_size))
          (block_size_pos tmp h) off.1 in
      let written = pwrite d (backup_offset tmp) (sb_image tmp) in
      let ends = status-ok written (rw test at done) in rw test (refl, ends.0, ends.1)
    where
      sizes : (t b l : ℕ) → 0 < t → 0 < b → 0 < l → (ltb 0 t && ltb 0 b && ltb 0 l) ≡ true
      sizes t b l x y z = ground arith

  -- What is on the disk after both copies were written.
  sb_write-images :
      (d : Disk) (sb : Superblock)
      → HasBackup sb
      → SbFits sb
      → (sb_write dev xxh64 d sb).0 ≡ ok tt
      → let tmp = sealed_sb dev xxh64 sb in
        (pread (sb_write dev xxh64 d sb).1 0 sb_size ≡ some (sb_image tmp))
        × (pread (sb_write dev xxh64 d sb).1 (backup_offset sb) sb_size ≡ some (sb_image tmp))
  unfolding sb_write sealed_sb
  sb_write-images d sb h fits done =
      let tmp = sealed_sb dev xxh64 sb in
      let image = sb_image tmp in
      let size = length-sb_image tmp (sealed_sb-SbFits sb fits) in
      let ends =
        write_backup-ok tmp (pwrite d 0 image)
          (record { two_blocks = h.two_blocks; behind = h.behind; small = h.small }) done in
      let first = (pwrite d 0 image).1 in
      (
        ap (λ e. pread e 0 sb_size) ends.2
            ∙ pread-pwrite_apart first (backup_offset sb) image 0 sb_size
                (inl (omega (arith, backup_offset-lem sb h)))
            ∙ subst (λ n. pread first 0 n ≡ some image) size (pread-pwrite_same d 0 image ends.0),
        ap (λ e. pread e (backup_offset sb) sb_size) ends.2
            ∙ subst
                (λ n.
                  pread (pwrite first (backup_offset sb) image).1 (backup_offset sb) n ≡ some image)
                size (pread-pwrite_same first (backup_offset sb) image ends.1),
      )

  parsed_back :
      (d : Disk) (sb : Superblock) (offset : ℕ)
      → SbFits sb
      → pread d offset sb_size ≡ some (sb_image (sealed_sb dev xxh64 sb))
      → parsed dev xxh64 (pread d offset sb_size) ≡ ok (sealed_sb dev xxh64 sb)
  unfolding parsed
  parsed_back d sb offset fits got =
      rw (got, sb_parse-sb_image (sealed_sb dev xxh64 sb) (sealed_sb-SbFits sb fits))

  read_back :
      (d : Disk) (sb : Superblock) (offset : ℕ)
      → SbFits sb
      → pread d offset sb_size ≡ some (sb_image (sealed_sb dev xxh64 sb))
      → with_checksum_ok dev xxh64 (parsed dev xxh64 (pread d offset sb_size))
        ≡ ok (sealed_sb dev xxh64 sb, true)
  unfolding with_checksum_ok
  read_back d sb offset fits got = rw (parsed_back d sb offset fits got, checksums_match-sealed_sb)

  pub sb_read-sb_write :
      (d : Disk) (sb : Superblock)
      → HasBackup sb
      → SbFits sb
      → (sb_write dev xxh64 d sb).0 ≡ ok tt
      → sb_read dev xxh64 (sb_write dev xxh64 d sb).1 ≡ ok (sealed_sb dev xxh64 sb)
  unfolding sb_read
  sb_read-sb_write d sb h fits done =
      parsed_back (sb_write dev xxh64 d sb).1 sb 0 fits (sb_write-images d sb h fits done).0

  -- For a superblock whose fields fit, of a volume of two blocks or more and of less than 2 ^ 63
  -- bytes, whose last block starts at 4080, the size of a superblock, or behind: after a successful
  -- `obmafs3_sb_write`, `obmafs3_sb_read_lenient` reads the superblock that was written, with
  -- new checksums that match.
  pub sb_read_lenient-sb_write :
      (d : Disk) (sb : Superblock)
      → HasBackup sb
      → SbFits sb
      → (sb_write dev xxh64 d sb).0 ≡ ok tt
      → sb_read_lenient dev xxh64 (sb_write dev xxh64 d sb).1 ≡ ok (sealed_sb dev xxh64 sb, true)
  unfolding sb_read_lenient sb_read
  sb_read_lenient-sb_write d sb h fits done =
      read_back (sb_write dev xxh64 d sb).1 sb 0 fits (sb_write-images d sb h fits done).0

  pub sb_read_backup-sb_write :
      (d : Disk) (sb : Superblock) (o : ℕ) (garbage : List ℕ)
      → HasBackup sb
      → SbFits sb
      → (sb_write dev xxh64 d sb).0 ≡ ok tt
      → o + length garbage ≤ sb.block_size
      → sb_read_backup dev xxh64
          (pwrite (sb_write dev xxh64 d sb).1 o garbage).1
          sb.block_size
          sb.total_bytes
        ≡ ok (sealed_sb dev xxh64 sb)
  unfolding sb_read_backup
  sb_read_backup-sb_write d sb o garbage h fits done inside =
      let last = last_block sb.total_bytes sb.block_size h.two_blocks h.small in
      let off = backup_offset-lem sb h in
      let block : ((sb.block_size == 0) || (sb.total_bytes == 0)) ≡ false =
        ground
          (arith, block_size_pos sb h, h.two_blocks, div-le_self sb.total_bytes sb.block_size) in
      let backed : (backup_sb_lba sb.total_bytes sb.block_size == 0) ≡ false =
        ne→== _ _ (omega (arith, off.1)) in
      let e = (sb_write dev xxh64 d sb).1 in
      rw (block, backed)
        (parsed_back (pwrite e o garbage).1 sb (backup_offset sb) fits (
          pread-pwrite_apart e o garbage (backup_offset sb) sb_size (inr (omega (arith, last)))
          ∙ (sb_write-images d sb h fits done).1))

  -- For a superblock whose fields fit, of a volume of two blocks or more and of less than 2 ^ 63
  -- bytes, whose last block starts at 4080, the size of a superblock, or behind: after a successful
  -- `obmafs3_sb_write`, and after any bytes were written inside the first block,
  -- `obmafs3_sb_read_backup_lenient` with the sizes of the volume reads the superblock that was
  -- written, with new checksums that match.
  pub sb_read_backup_lenient-sb_write :
      (d : Disk) (sb : Superblock) (o : ℕ) (garbage : List ℕ)
      → HasBackup sb
      → SbFits sb
      → (sb_write dev xxh64 d sb).0 ≡ ok tt
      → o + length garbage ≤ sb.block_size
      → sb_read_backup_lenient dev xxh64
          (pwrite (sb_write dev xxh64 d sb).1 o garbage).1
          sb.block_size
          sb.total_bytes
        ≡ ok (sealed_sb dev xxh64 sb, true)
  unfolding sb_read_backup_lenient with_checksum_ok
  sb_read_backup_lenient-sb_write d sb o garbage h fits done inside =
      rw (sb_read_backup-sb_write d sb o garbage h fits done inside, checksums_match-sealed_sb)
