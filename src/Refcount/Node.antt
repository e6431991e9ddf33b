-- ===== src/Refcount/Node.antt =====
-- How `obmafs3_refcount_set` (src/lib/refcount.c) changes the buffer of a node. The code changes a
-- copy of the header and copies it back, which changes the same bytes.
pub mod Edits
pub mod Leaf
pub mod Records
pub mod Removal
use obmafs.Prelude.{
  ℕ, ◌+◌, ◌-◌, ◌*◌, ◌/◌, Bool, List, [], ◌∷◌, ◌++◌, ltb, if◌then◌else◌, replicate, take, drop, u8,
  u16,
}
use obmafs.Context.{Ctx}
use obmafs.Codec.{le_bytes, pack}
use obmafs.Codec.Patch.{put, bytes_at}
use obmafs.Btree.Header.{checksum_block}
use obmafs.Refcount.{node_magic, node_header_widths, node_field}

unfoldable pub leaf_max_keys : Ctx → ℕ
leaf_max_keys ctx = u16 ((ctx.sb.block_size - 70) / 12)

pub index_max_keys : Ctx → ℕ
index_max_keys ctx = u16 ((ctx.sb.block_size - 70) / 16)

-- kBtreeDataTypeRefcountEntry
abbrev pub refcount_type : ℕ
refcount_type = 10

-- `hdr.node_keys = n; hdr.keys_length = n * size`
pub with_keys : (n size : ℕ) → List ℕ → List ℕ
with_keys n size buf = put (le_bytes 2 (u16 (n * size))) 36 (put (le_bytes 2 n) 34 buf)

pub with_left : ℕ → List ℕ → List ℕ
with_left lba buf = put (le_bytes 8 lba) 10 buf

pub with_right : ℕ → List ℕ → List ℕ
with_right lba buf = put (le_bytes 8 lba) 18 buf

-- `compute_node_checksum`
pub sealed_node : (List ℕ → ℕ) → List ℕ → List ℕ
sealed_node xxh64 buf =
    let zeroed = put (replicate 32 0) 38 buf in
    put (le_bytes 32 (checksum_block xxh64 (take (70 + node_field zeroed 7) zeroed))) 38 zeroed

-- `struct refcount_record` and `struct btree_index_entry`
pub record_bytes : (lba count : ℕ) → List ℕ
record_bytes lba count = le_bytes 8 lba ++ le_bytes 4 count

pub entry_bytes : (key child : ℕ) → List ℕ
entry_bytes key child = le_bytes 8 key ++ le_bytes 8 child

-- `memmove` of the elements from `i` on, `n` of them, to place `j`.
pub move_elements : (size i j n : ℕ) → List ℕ → List ℕ
move_elements size i j n buf = put (bytes_at (n * size) (70 + i * size) buf) (70 + j * size) buf

pub put_element : (size i : ℕ) → List ℕ → List ℕ → List ℕ
put_element size i element buf = put element (70 + i * size) buf

-- The leaf without record `i`.
pub without_record : (List ℕ → ℕ) → (keys i : ℕ) → List ℕ → List ℕ
without_record xxh64 keys i buf =
    let moved = if ltb i (keys - 1) then move_elements 12 (i + 1) i (keys - i - 1) buf else buf in
    let n = u16 (keys - 1) in
    sealed_node xxh64 (with_keys n 12 (put_element 12 n (replicate 12 0) moved))

-- The leaf with another record `i`.
pub with_record : (List ℕ → ℕ) → (i lba count : ℕ) → List ℕ → List ℕ
with_record xxh64 i lba count buf =
    sealed_node xxh64 (put_element 12 i (record_bytes lba count) buf)

-- The node with one more element at `p`.
pub widened : (size keys p : ℕ) → (element : List ℕ) → List ℕ → List ℕ
widened size keys p element buf =
    let moved = if ltb p keys then move_elements size p (p + 1) (keys - p) buf else buf in
    with_keys (u16 (keys + 1)) size (put_element size p element moved)

pub with_new_record : (List ℕ → ℕ) → (keys p lba count : ℕ) → List ℕ → List ℕ
with_new_record xxh64 keys p lba count buf =
    sealed_node xxh64 (widened 12 keys p (record_bytes lba count) buf)

-- All elements of a full node and a new one at `p`, and the half that stays.
pub all_elements : (size max p : ℕ) → (element : List ℕ) → List ℕ → List ℕ
all_elements size max p element buf =
    bytes_at (p * size) 70 buf ++ (element ++ bytes_at ((max - p) * size) (70 + p * size) buf)

pub left_half : Ctx → (size n new_lba : ℕ) → (elements : List ℕ) → List ℕ → List ℕ
left_half ctx size n new_lba elements buf =
    let cleared = put (replicate (ctx.sb.block_size - 70) 0) 70 buf in
    with_right new_lba (with_keys n size (put (take (n * size) elements) 70 cleared))

-- A new node with `keys` elements.
pub fresh_node : Ctx → (level left right keys size : ℕ) → (elements : List ℕ) → List ℕ
fresh_node ctx level left right keys size elements =
    let fields =
      node_magic ∷ refcount_type ∷ level ∷ left ∷ right ∷ 0 ∷ keys ∷ u16 (keys * size) ∷ 0 ∷ [] in
    put elements 70 (put (pack node_header_widths fields) 0 (replicate ctx.sb.block_size 0))
