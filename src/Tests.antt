-- ===== src/Tests.antt =====
-- A small volume of 40 blocks, on which the code runs and the theorems are applied.
mod Allocation
mod Counts
mod Trees
mod Disk
mod Opening
mod Sectors
mod Digests
mod Changes
mod Regions
mod Files
use obmafs.Prelude.{
  ℕ, ◌+◌, ◌*◌, ◌/◌, ◌<◌, ◌≤◌, ◌^◌, ◌≡◌, ◌≢◌, refl, Bool, true, false, some, none, List, [], ◌∷◌,
  arith, ltb, leb, get_or, inl, inr, if◌then◌else◌, ◌==◌, not, ℕ_discrete, ◌&&◌, length, ◌↔◌, zero,
  suc, ap,
}
use obmafs.Context.{Ctx, Superblock, Result, ok, err, nospc, total_blocks}
use obmafs.Device.{Device, block_write}
use obmafs.Device.Memory.{ram}
use obmafs.Bitmap.{bitmap_set, bitmap_clear, bitmap_is_set, is_set_of, bytes_is_set}
use obmafs.Bitmap.Marking.{is_set-bitmap_set, is_set-bitmap_clear}
use obmafs.Bitmap.Search.{
  find_free, find_free_with, find_free_in, after_pass, scan_pass, pass_loop, scan_word, word_loop,
  extend_run, mask_word, ctz, load_word, load_le, go_on, hint_of,
}
use obmafs.Bitmap.Search.FindFree.{
  IsLoaded, reference, find_free-reference, Answers, find_free_lem, find_free_across_hint,
}
use obmafs.Alloc.{alloc_blocks, take_run, free_blocks}
use obmafs.Alloc.Safety.{IsValid, AllocSpec, alloc_blocks-AllocSpec, Released, free_blocks-Released}
use obmafs.Alloc.History.{
  World, world, update, span, Reach, here, next, take, give_back, start, IsSound, Reach-IsSound,
}

abbrev pub sb : Superblock
sb = record {
  magic = 0x335F5346414D424F;
  guid = 7;
  block_size = 4096;
  dedup_block_size = 65536;
  total_bytes = 163840;
  catalog_lba = 1;
  inode_lba = 2;
  overflow_lba = 3;
  dedup_lba = 4;
  metadata_lba = 5;
  media_tag_lba = 6;
  cd_prefix_lba = 7;
  cd_suffix_lba = 8;
  cd_subchannel_lba = 9;
  metadata_idx_lba = 10;
  refcount_lba = 11;
  checksum_type = 0;
  creation_time = 1700000000;
  next_inode_id = 3;
  bitmap_lba = 12;
  bitmap_blocks = 1;
  keyset_lba = 0;
  keyset_blocks = 0;
  pending_lba = 0;
  pending_blocks = 0;
  btree_clump_size = 4;
  dedup_clump_size = 0;
  revision = 20260224;
  compatible_flags = 0;
  rocompat_flags = 0;
  incompatible_flags = 0;
  volume_label = 65;
  checksum = 0;
  sector_tag_data_lba = 0;
  sector_tag_ref_lba = 0;
  junk_map_lba = 0;
  metadata_numeric_idx_lba = 0;
  user_index_registry_lba = 0;
  reserved = 0;
  checksum2 = 0;
}

-- The first 13 blocks are in use, and the last.
abbrev pub bytes : List ℕ
bytes = 255 ∷ 31 ∷ 0 ∷ 0 ∷ 128 ∷ []

abbrev pub ctx : Ctx
ctx = record { sb = sb; bitmap = some bytes; bitmap_size = 5; next_free_lba = 13 }

abbrev pub beyond : ℕ → ℕ
beyond i = 170

pub beyond_small : (i : ℕ) → beyond i < 256
beyond_small i = omega arith

bytes_small : (i : ℕ) → get_or bytes i 0 < 256
bytes_small zero = omega arith
bytes_small (suc zero) = omega arith
bytes_small (suc (suc zero)) = omega arith
bytes_small (suc (suc (suc zero))) = omega arith
bytes_small (suc (suc (suc (suc zero)))) = omega arith
bytes_small (suc (suc (suc (suc (suc i))))) = omega arith

pub ctx-IsLoaded : IsLoaded ctx bytes
ctx-IsLoaded = record {
  loaded = refl;
  in_memory = omega arith;
  small = bytes_small;
  covers = omega arith;
  bound = omega arith;
}

pub ctx-IsValid : IsValid ctx
ctx-IsValid = (bytes, ctx-IsLoaded)
