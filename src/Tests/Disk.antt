-- ===== src/Tests/Disk.antt =====
-- Structures on a disk in memory (src/lib/superblock.c, src/lib/btree.c, src/lib/io.c).
use obmafs.Prelude.{
  none, ℕ, ◌<◌, ◌≤◌, ◌^◌, ◌≡◌, ◌≢◌, ◌⊎◌, refl, true, List, [], ◌∷◌, arith, replicate,
}
use obmafs.Context.{ok, total_blocks}
use obmafs.Device.{block_read, block_write}
use obmafs.Device.Memory.{ram}
use obmafs.Device.Blocks.{block_write-ok, block_read-block_write_ne}
use obmafs.Btree.{TreeHeader, header_magic}
use obmafs.Btree.Header.{header_checksum, header_read, header_write, header_block, sealed_header}
use obmafs.Btree.Header.RoundTrip.{header_read-header_write, header_read-free_list}
use obmafs.Superblock.{
  sealed_sb, status, write_backup, sb_write, sb_read_lenient, sb_read_backup_lenient,
}
use obmafs.Superblock.RoundTrip.{
  SbFits, HasBackup, sb_read_lenient-sb_write, sb_read_backup_lenient-sb_write,
}
use obmafs.Bitmap.Disk.{bitmap_write, write_bytes, write_loop, next_write, bitmap_read}
use obmafs.Bitmap.Disk.Stored.{IsStorable}
use obmafs.Bitmap.Disk.RoundTrip.{bitmap_read-bitmap_write}
use obmafs.Device
use obmafs.Tests.{sb, ctx, bytes}

abbrev empty_disk : ℕ → ℕ
empty_disk i = 0

-- A hash for the tests.
abbrev hash : List ℕ → ℕ
hash bs = 5

hash_lt : (bs : List ℕ) → hash bs < 2 ^ 64
hash_lt bs = omega arith

abbrev hdr : TreeHeader
hdr = record {
  magic = header_magic;
  data_type = 1;
  root_node_lba = 14;
  free_node_lba = 99;
  node_size = 4096;
  total_nodes = 1;
  free_nodes = 3;
  tree_type = 1;
  last_block_lba = 0;
  last_block_offset = 0;
  checksum = 0;
}

header_write-done : (header_write ram hash ctx empty_disk 13 hdr).0 ≡ ok tt
unfolding header_write
header_write-done =
    block_write-ok ram ctx empty_disk 13
      (header_block ram hash ctx (sealed_header ram hash ctx hdr)) refl

header_read-header_write_example :
    header_read ram hash ctx (header_write ram hash ctx empty_disk 13 hdr).1 13
    ≡ ok (header_write ram hash ctx empty_disk 13 hdr).2
header_read-header_write_example =
    header_read-header_write ram hash hash_lt ctx empty_disk 13 hdr (omega arith) (ground arith)
      refl header_write-done

-- The free list of the header starts at block 99 of a volume of 40 blocks.
header_read-free_list_example :
    (stored : TreeHeader) × (header_read ram hash ctx
        (header_write ram hash ctx empty_disk 13 hdr).1
        13
      ≡ ok stored)
    × ((stored.free_node_lba ≡ 0) ⊎ (stored.free_node_lba < total_blocks ctx))
    × (hdr.free_node_lba < total_blocks ctx
        → stored ≡ record hdr { checksum = header_checksum ram hash hdr })
    × (hdr.free_node_lba ≢ 0
        → total_blocks ctx ≤ hdr.free_node_lba
        → (stored.free_node_lba ≡ 0) × (stored.free_nodes ≡ 0))
    × (stored.root_node_lba ≡ hdr.root_node_lba)
header_read-free_list_example =
    header_read-free_list ram hash hash_lt ctx empty_disk 13 hdr (omega arith) (ground arith) refl
      header_write-done

block_read-block_write_ne_example :
    block_read ram ctx (block_write ram ctx empty_disk 20 (replicate 4096 7)).1 21 4096
    ≡ block_read ram ctx empty_disk 21 4096
block_read-block_write_ne_example =
    block_read-block_write_ne ram ctx empty_disk 20 21 (replicate 4096 7) (omega arith)
      (omega arith) (omega arith) (omega arith) refl

sb-HasBackup : HasBackup sb
sb-HasBackup = record { two_blocks = omega arith; behind = omega arith; small = omega arith }

sb-SbFits : SbFits sb
sb-SbFits = record { v1 = ground arith; ext = ground arith }

sb_write-done : (sb_write ram hash empty_disk sb).0 ≡ ok tt
unfolding sb_write write_backup status sealed_sb
sb_write-done = refl

sb_read_lenient-sb_write_example :
    sb_read_lenient ram hash (sb_write ram hash empty_disk sb).1 ≡ ok (sealed_sb ram hash sb, true)
sb_read_lenient-sb_write_example =
    sb_read_lenient-sb_write ram hash hash_lt empty_disk sb sb-HasBackup sb-SbFits sb_write-done

sb_read_backup_lenient-sb_write_example :
    sb_read_backup_lenient ram hash
      (ram.pwrite (sb_write ram hash empty_disk sb).1 0 (255 ∷ 255 ∷ [])).1
      4096
      163840
    ≡ ok (sealed_sb ram hash sb, true)
sb_read_backup_lenient-sb_write_example =
    sb_read_backup_lenient-sb_write ram hash hash_lt empty_disk sb 0 (255 ∷ 255 ∷ []) sb-HasBackup
      sb-SbFits sb_write-done (omega arith)

ctx-IsStorable : IsStorable ctx bytes
ctx-IsStorable = record {
  loaded = refl;
  size = refl;
  needed = refl;
  header = omega arith;
  room = omega arith;
  inside = omega arith;
  small = omega arith;
  blocks = omega arith;
  block = omega arith;
  hint = omega arith;
}

bitmap_write-done : (bitmap_write ram hash true ctx empty_disk).0 ≡ ok tt
unfolding bitmap_write write_bytes write_loop next_write block_write Device.status
bitmap_write-done = refl

bitmap_read-bitmap_write_example :
    bitmap_read ram hash true true
      (record ctx { bitmap = none; bitmap_size = 0; next_free_lba = 0 })
      (bitmap_write ram hash true ctx empty_disk).1
    ≡ (ctx, ok tt)
bitmap_read-bitmap_write_example =
    bitmap_read-bitmap_write ram hash hash_lt ctx-IsStorable empty_disk none 0 0 bitmap_write-done
