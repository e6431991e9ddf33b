-- ===== src/Context.antt =====
-- The superblock, the parts of `struct obmafs3_ctx` (src/include/obmafs.h) that block and node
-- allocation reads and writes, and the status codes.
use obmafs.Prelude.{ℕ, ◌/◌, Option, List}

-- The `OBMAFS3_ERR_*` codes of src/include/obmafs.h.
pub data Error : Type 0 where
  io nomem badmagic checksum notfound inval exists nospc revision incompat : Error

-- What a function that returns a status hands back: OBMAFS3_OK with its output, or an error code.
pub data Result {ℓ} (A : Type ℓ) : Type ℓ where
  ok : A → Result A
  err : Error → Result A

-- `struct obmafs3_sb` of src/include/superblock.h. A field that is an array of bytes is the number
-- that its bytes stand for, the first byte the lowest.
pub record Superblock : Type 0 where
  pub magic : ℕ
  pub guid : ℕ
  pub block_size : ℕ
  pub dedup_block_size : ℕ
  pub total_bytes : ℕ
  pub catalog_lba : ℕ
  pub inode_lba : ℕ
  pub overflow_lba : ℕ
  pub dedup_lba : ℕ
  pub metadata_lba : ℕ
  pub media_tag_lba : ℕ
  pub cd_prefix_lba : ℕ
  pub cd_suffix_lba : ℕ
  pub cd_subchannel_lba : ℕ
  pub metadata_idx_lba : ℕ
  pub refcount_lba : ℕ
  pub checksum_type : ℕ
  pub creation_time : ℕ
  pub next_inode_id : ℕ
  pub bitmap_lba : ℕ
  pub bitmap_blocks : ℕ
  pub keyset_lba : ℕ
  pub keyset_blocks : ℕ
  pub pending_lba : ℕ
  pub pending_blocks : ℕ
  pub btree_clump_size : ℕ
  pub dedup_clump_size : ℕ
  pub revision : ℕ
  pub compatible_flags : ℕ
  pub rocompat_flags : ℕ
  pub incompatible_flags : ℕ
  pub volume_label : ℕ
  pub checksum : ℕ
  pub sector_tag_data_lba : ℕ
  pub sector_tag_ref_lba : ℕ
  pub junk_map_lba : ℕ
  pub metadata_numeric_idx_lba : ℕ
  pub user_index_registry_lba : ℕ
  pub reserved : ℕ
  pub checksum2 : ℕ

-- `bitmap` is the pointer to the in-memory bitmap: `none` is NULL, a list is its bytes.
pub record Ctx : Type 0 where
  pub sb : Superblock
  pub bitmap : Option (List ℕ)
  pub bitmap_size : ℕ
  pub next_free_lba : ℕ

-- The number of blocks of the volume.
abbrev pub total_blocks : Ctx → ℕ
total_blocks ctx = ctx.sb.total_bytes / ctx.sb.block_size
