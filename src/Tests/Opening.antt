-- ===== src/Tests/Opening.antt =====
-- A volume with one tree header, opened (src/lib/io.c).
use obmafs.Prelude.{
  ℕ, ◌<◌, ◌^◌, ◌≡◌, refl, ◌∙◌, ap, true, false, some, none, List, [], ◌∷◌, arith, inl,
}
use obmafs.Context.{Superblock, Ctx, Result, ok}
use obmafs.Device.{block_write}
use obmafs.Device.Memory.{ram}
use obmafs.Device.Blocks.{block_write-ok}
use obmafs.Btree.{TreeHeader, header_magic}
use obmafs.Btree.Header.{header_read, header_write, header_block, sealed_header}
use obmafs.Btree.Header.RoundTrip.{header_read-header_write}
use obmafs.Superblock.{
  sb_validate, sealed_sb, status, write_backup, sb_write, sb_read, parsed, sb_size,
}
use obmafs.Superblock.RoundTrip.{SbFits, HasBackup, sb_read-sb_write}
use obmafs.Bitmap.Disk.{bitmap_read}
use obmafs.Bitmap.Disk.Outcome.{Loads, bitmap_read-Loads}
use obmafs.Open.{
  System, Volume, usable, validated, to_result, check_features, need, require, load_common,
  find_superblock, load_headers, load_bitmap, load_registry, open_flags, new_ctx, blank,
}
use obmafs.Open.Guards.{IsOpened, open_flags-IsOpened}
use obmafs.Open.Recovery.{IsUsable, find_superblock-sb_write}
use obmafs.Tests.{sb, ctx}

abbrev empty_disk : ℕ → ℕ
empty_disk i = 0

abbrev hash : List ℕ → ℕ
hash bs = 5

hash_lt : (bs : List ℕ) → hash bs < 2 ^ 64
hash_lt bs = omega arith

sb-IsUsable : IsUsable sb
sb-IsUsable = record {
  magic = refl;
  block_size = omega arith;
  dedup_block_size = omega arith;
  total_bytes = omega arith;
  catalog = omega arith;
  inode = omega arith;
}

sb-HasBackup : HasBackup sb
sb-HasBackup = record { two_blocks = omega arith; behind = omega arith; small = omega arith }

sb-SbFits : SbFits sb
sb-SbFits = record { v1 = ground arith; ext = ground arith }

sb_write-done : (sb_write ram hash empty_disk sb).0 ≡ ok tt
unfolding sb_write write_backup status sealed_sb
sb_write-done = refl

-- The first two bytes are overwritten.
abbrev damaged : ℕ → ℕ
damaged = (ram.pwrite (sb_write ram hash empty_disk sb).1 0 (255 ∷ 255 ∷ [])).1

find_superblock-sb_write_example :
    ((s : Superblock)
      → usable (sb_read ram hash damaged) ≡ some s
      → find_superblock ram hash damaged 163840 ≡ ok s)
    × (usable (sb_read ram hash damaged) ≡ none
        → find_superblock ram hash damaged 163840 ≡ ok (sealed_sb ram hash sb))
find_superblock-sb_write_example =
    find_superblock-sb_write ram hash hash_lt empty_disk sb 0 (255 ∷ 255 ∷ []) sb-HasBackup
      sb-SbFits sb-IsUsable refl sb_write-done (omega arith)

bitmap_read-Loads_example :
    Loads ram hash ctx empty_disk (bitmap_read ram hash true true ctx empty_disk)
bitmap_read-Loads_example = bitmap_read-Loads ram hash true true ctx empty_disk

-- A superblock that names block 1 as the header of its two trees.
abbrev small_sb : Superblock
small_sb = record sb {
  catalog_lba = 1;
  inode_lba = 1;
  overflow_lba = 0;
  dedup_lba = 0;
  metadata_lba = 0;
  media_tag_lba = 0;
  cd_prefix_lba = 0;
  cd_suffix_lba = 0;
  cd_subchannel_lba = 0;
  metadata_idx_lba = 0;
  refcount_lba = 0;
  bitmap_lba = 0;
}

small_sb-SbFits : SbFits small_sb
small_sb-SbFits = record { v1 = ground arith; ext = ground arith }

small_sb-HasBackup : HasBackup small_sb
small_sb-HasBackup = record { two_blocks = omega arith; behind = omega arith; small = omega arith }

abbrev sealed : Superblock
sealed = sealed_sb ram hash small_sb

abbrev with_sb : ℕ → ℕ
with_sb = (sb_write ram hash empty_disk small_sb).1

small_sb-done : (sb_write ram hash empty_disk small_sb).0 ≡ ok tt
unfolding sb_write write_backup status sealed_sb
small_sb-done = refl

abbrev root_hdr : TreeHeader
root_hdr = record blank { magic = header_magic; node_size = 4096 }

abbrev written : ℕ → ℕ
written = (header_write ram hash (new_ctx sealed) with_sb 1 root_hdr).1

abbrev cached : TreeHeader
cached = (header_write ram hash (new_ctx sealed) with_sb 1 root_hdr).2

root_hdr-done : (header_write ram hash (new_ctx sealed) with_sb 1 root_hdr).0 ≡ ok tt
unfolding header_write
root_hdr-done =
    block_write-ok ram (new_ctx sealed) with_sb 1
      (header_block ram hash (new_ctx sealed) (sealed_header ram hash (new_ctx sealed) root_hdr))
      refl

header_read-test : header_read ram hash (new_ctx sealed) written 1 ≡ ok cached
unfolding sealed_sb
header_read-test =
    header_read-header_write ram hash hash_lt (new_ctx sealed) with_sb 1 root_hdr (omega arith)
      (ground arith) refl root_hdr-done

sb_read-test : sb_read ram hash written ≡ ok sealed
unfolding sb_read header_write block_write sealed_sb
sb_read-test =
    ap (parsed ram hash) (
      ram.pread-pwrite_apart with_sb 4096
        (header_block ram hash (new_ctx sealed) (sealed_header ram hash (new_ctx sealed) root_hdr))
        0 sb_size (inl (omega arith)))
    ∙ sb_read-sb_write ram hash hash_lt empty_disk small_sb small_sb-HasBackup small_sb-SbFits
        small_sb-done

abbrev system : System
system = record {
  opens = true;
  ctx_ok = true;
  key_ok = true;
  leaf_ok = true;
  bitmap_ok = true;
  buffer_ok = true;
  file_size = 163840;
}

abbrev no_indexes : Ctx → (ℕ → ℕ) → Result (Unit {0})
no_indexes c d = ok tt

abbrev volume : Volume
volume = record {
  core = new_ctx sealed;
  headers = record {
    catalog = cached;
    inode = cached;
    overflow = blank;
    media_tag = blank;
    cd_prefix = blank;
    cd_suffix = blank;
    cd_subchannel = blank;
    metadata = blank;
    metadata_idx = blank;
    refcount = blank;
    sector_tag_data = blank;
    sector_tag_ref = blank;
    junk_map = blank;
    metadata_numeric_idx = blank;
  };
  read_only = false;
}

find_superblock-test : find_superblock ram hash written 163840 ≡ ok sealed
unfolding find_superblock to_result usable validated sb_validate sealed_sb
find_superblock-test = rw sb_read-test

open_flags-test : open_flags ram hash system no_indexes 0 written ≡ ok volume
unfolding open_flags need require check_features load_headers load_common load_registry load_bitmap
    sealed_sb
open_flags-test = rw (find_superblock-test, header_read-test)

open_flags-IsOpened_example : IsOpened ram hash 0 written volume
open_flags-IsOpened_example =
    open_flags-IsOpened ram hash system no_indexes 0 written open_flags-test
