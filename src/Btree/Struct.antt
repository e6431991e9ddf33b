-- ===== src/Btree/Struct.antt =====
-- `struct btree_header` of src/include/btree.h.
use obmafs.Prelude.{ℕ, List, [], ◌∷◌, get_or}

pub record TreeHeader : Type 0 where
  pub magic : ℕ
  pub data_type : ℕ
  pub root_node_lba : ℕ
  pub free_node_lba : ℕ
  pub node_size : ℕ
  pub total_nodes : ℕ
  pub free_nodes : ℕ
  pub tree_type : ℕ
  pub last_block_lba : ℕ
  pub last_block_offset : ℕ
  pub checksum : ℕ

-- The widths of the fields, 90 bytes together.
abbrev pub header_widths : List ℕ
header_widths = 8 ∷ 4 ∷ 8 ∷ 8 ∷ 2 ∷ 4 ∷ 4 ∷ 4 ∷ 8 ∷ 8 ∷ 32 ∷ []

abbrev pub header_fields : TreeHeader → List ℕ
header_fields h =
    h.magic ∷ h.data_type ∷ h.root_node_lba ∷ h.free_node_lba ∷ h.node_size ∷ h.total_nodes
    ∷ h.free_nodes ∷ h.tree_type ∷ h.last_block_lba ∷ h.last_block_offset ∷ h.checksum ∷ []

abbrev pub header_of : List ℕ → TreeHeader
header_of vs = record {
  magic = get_or vs 0 0;
  data_type = get_or vs 1 0;
  root_node_lba = get_or vs 2 0;
  free_node_lba = get_or vs 3 0;
  node_size = get_or vs 4 0;
  total_nodes = get_or vs 5 0;
  free_nodes = get_or vs 6 0;
  tree_type = get_or vs 7 0;
  last_block_lba = get_or vs 8 0;
  last_block_offset = get_or vs 9 0;
  checksum = get_or vs 10 0;
}

-- OBMAFS3_BTREE_HDR_MAGIC
abbrev pub header_magic : ℕ
header_magic = 0x5244484545525442

-- kBtreeTypeDeduplication of src/include/enums.h
abbrev pub type_dedup : ℕ
type_dedup = 3

-- OBMAFS3_DEDUP_CLUMP_SIZE and OBMAFS3_DEFAULT_CLUMP_SIZE
abbrev pub default_dedup_clump : ℕ
default_dedup_clump = 1024

abbrev pub default_clump : ℕ
default_clump = 64
