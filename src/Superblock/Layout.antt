-- ===== src/Superblock/Layout.antt =====
-- The layout of `struct obmafs3_sb` (src/include/superblock.h): the V1 portion and the extension.
use obmafs.Prelude.{ℕ, List, [], ◌∷◌, get_or}
use obmafs.Context.{Superblock}

abbrev pub sb_v1_widths : List ℕ
sb_v1_widths =
    8 ∷ 16 ∷ 8 ∷ 8 ∷ 8 ∷ 8 ∷ 8 ∷ 8 ∷ 8 ∷ 8 ∷ 8 ∷ 8 ∷ 8 ∷ 8 ∷ 8 ∷ 8 ∷ 2 ∷ 8 ∷ 8 ∷ 8 ∷ 8 ∷ 8 ∷ 8 ∷ 8
    ∷ 8 ∷ 4 ∷ 4 ∷ 4 ∷ 8 ∷ 8 ∷ 8 ∷ 256 ∷ 32 ∷ []

abbrev pub sb_ext_widths : List ℕ
sb_ext_widths = 8 ∷ 8 ∷ 8 ∷ 8 ∷ 8 ∷ 3482 ∷ 32 ∷ []

abbrev pub sb_v1_fields : Superblock → List ℕ
sb_v1_fields sb =
    sb.magic ∷ sb.guid ∷ sb.block_size ∷ sb.dedup_block_size ∷ sb.total_bytes ∷ sb.catalog_lba
    ∷ sb.inode_lba ∷ sb.overflow_lba ∷ sb.dedup_lba ∷ sb.metadata_lba ∷ sb.media_tag_lba
    ∷ sb.cd_prefix_lba ∷ sb.cd_suffix_lba ∷ sb.cd_subchannel_lba ∷ sb.metadata_idx_lba
    ∷ sb.refcount_lba ∷ sb.checksum_type ∷ sb.creation_time ∷ sb.next_inode_id ∷ sb.bitmap_lba
    ∷ sb.bitmap_blocks ∷ sb.keyset_lba ∷ sb.keyset_blocks ∷ sb.pending_lba ∷ sb.pending_blocks
    ∷ sb.btree_clump_size ∷ sb.dedup_clump_size ∷ sb.revision ∷ sb.compatible_flags
    ∷ sb.rocompat_flags ∷ sb.incompatible_flags ∷ sb.volume_label ∷ sb.checksum ∷ []

abbrev pub sb_ext_fields : Superblock → List ℕ
sb_ext_fields sb =
    sb.sector_tag_data_lba ∷ sb.sector_tag_ref_lba ∷ sb.junk_map_lba ∷ sb.metadata_numeric_idx_lba
    ∷ sb.user_index_registry_lba ∷ sb.reserved ∷ sb.checksum2 ∷ []

-- The superblock from the fields of its two parts.
abbrev pub sb_of : (vs es : List ℕ) → Superblock
sb_of vs es = record {
  magic = get_or vs 0 0;
  guid = get_or vs 1 0;
  block_size = get_or vs 2 0;
  dedup_block_size = get_or vs 3 0;
  total_bytes = get_or vs 4 0;
  catalog_lba = get_or vs 5 0;
  inode_lba = get_or vs 6 0;
  overflow_lba = get_or vs 7 0;
  dedup_lba = get_or vs 8 0;
  metadata_lba = get_or vs 9 0;
  media_tag_lba = get_or vs 10 0;
  cd_prefix_lba = get_or vs 11 0;
  cd_suffix_lba = get_or vs 12 0;
  cd_subchannel_lba = get_or vs 13 0;
  metadata_idx_lba = get_or vs 14 0;
  refcount_lba = get_or vs 15 0;
  checksum_type = get_or vs 16 0;
  creation_time = get_or vs 17 0;
  next_inode_id = get_or vs 18 0;
  bitmap_lba = get_or vs 19 0;
  bitmap_blocks = get_or vs 20 0;
  keyset_lba = get_or vs 21 0;
  keyset_blocks = get_or vs 22 0;
  pending_lba = get_or vs 23 0;
  pending_blocks = get_or vs 24 0;
  btree_clump_size = get_or vs 25 0;
  dedup_clump_size = get_or vs 26 0;
  revision = get_or vs 27 0;
  compatible_flags = get_or vs 28 0;
  rocompat_flags = get_or vs 29 0;
  incompatible_flags = get_or vs 30 0;
  volume_label = get_or vs 31 0;
  checksum = get_or vs 32 0;
  sector_tag_data_lba = get_or es 0 0;
  sector_tag_ref_lba = get_or es 1 0;
  junk_map_lba = get_or es 2 0;
  metadata_numeric_idx_lba = get_or es 3 0;
  user_index_registry_lba = get_or es 4 0;
  reserved = get_or es 5 0;
  checksum2 = get_or es 6 0;
}

-- OBMAFS3_SB_MAGIC
abbrev pub sb_magic : ℕ
sb_magic = 0x335F5346414D424F

-- OBMAFS3_SB_V1_SIZE and `sizeof(struct obmafs3_sb)`
abbrev pub sb_v1_size : ℕ
sb_v1_size = 526

abbrev pub sb_size : ℕ
sb_size = 4080
