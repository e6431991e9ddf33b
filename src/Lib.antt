-- ===== src/Lib.antt =====
-- Verification library of OBMAFS3, an archival file system: what src/lib keeps on the disk and in
-- memory to know which blocks are used, and the structures that stand on it.
--
-- The parts of the program and the files that model them:
--   * Context: the status codes, the superblock (src/include/superblock.h) and the fields of
--     `struct obmafs3_ctx` (src/include/obmafs.h) that allocation uses. A C pointer that may be
--     NULL is an Option, a function that returns a status gives a Result.
--   * Codec: packed structs as bytes, each field of a fixed width and little-endian.
--   * Device: `obmafs3_block_read` and `obmafs3_block_write` (src/lib/io.c) over `pread` and
--     `pwrite`, which are the operating system's and so a parameter, the record Device with its
--     laws. Device/Memory fills the record with a disk in memory, which the tests use.
--   * Bitmap, Bitmap/Search: the allocation bitmap (src/lib/bitmap.c). `bitmap_set`,
--     `bitmap_clear`, `bitmap_is_set` and `find_free` are the functions `obmafs3_bitmap_*`.
--     Bitmap/Disk: `obmafs3_bitmap_read` and `obmafs3_bitmap_write`.
--   * Alloc: `obmafs3_alloc_blocks`, `obmafs3_alloc_block`, `obmafs3_alloc_inode_id`
--     (src/lib/btree.c), `obmafs3_free_blocks` and `obmafs3_free_block` (src/lib/bitmap.c).
--     Each takes the context and gives the new one: the lock makes each of them one step.
--     Alloc/History is the step relation of any callers in any order.
--   * Btree/Struct, Btree/Header: `struct btree_header` and `obmafs3_btree_header_read`,
--     `obmafs3_btree_header_read_lenient`, `obmafs3_btree_header_write` (src/lib/btree.c), with
--     `obmafs3_checksum_block` (src/lib/checksum.c).
--   * Btree/Nodes: `obmafs3_btree_alloc_node` and `obmafs3_btree_free_node` (src/lib/btree.c),
--     which call the allocator and the block I/O.
--   * Superblock: src/lib/superblock.c, the two copies of the superblock.
--   * Open: `obmafs3_open_flags` (src/lib/io.c), which calls the superblock, the tree headers and
--     the bitmap. It gives a Volume, the part of the context that it fills, or an error.
--     Open/Loading: which header the context keeps for each tree.
--   * Refcount: the reference counts of blocks (src/lib/refcount.c): `leaf_find` and `index_find` are
--     the loops of `refcount_leaf_find` and `refcount_index_find`, `refcount_get` is
--     `obmafs3_refcount_get` on the tree at a root, with the cached leaf as a value. Refcount/Tree
--     says what a well-formed tree on the disk is and which records it holds. Refcount/Node: how the
--     buffer of a node is changed. Refcount/Set: `obmafs3_refcount_set` (`refcount_set`, in the two
--     parts `take_count` for counts up to 1 and `put_count`, with `split_node` and `propagate` for
--     nodes that are full), `obmafs3_refcount_inc` and `obmafs3_refcount_dec`.
--   * JunkMap: the lookup in the map of padding regions of disc images (src/lib/junk_map.c):
--     `junk_map_lookup` is `obmafs3_junk_map_lookup` on the tree at a root, the searches have the names
--     of the code. JunkMap/Tree says what a well-formed tree is; each entry of an index node but the
--     first has the key of the least record below it.
--   * CdEcc: the error correction codes of CD sectors (src/lib/ecc_cd.c): `Pass` holds the arguments
--     of `ecc_cd_check` (`ecc_check`) and `ecc_cd_write` (`ecc_write`), `tables` is `ecc_cd_init`.
--     The codes are a part of the sector, as in every call.
--     CdEcc/Sector has the EDC (`edc_compute`), the checks of suffixes and the reconstruction of
--     prefix and suffix: a sector is a list of bytes, a mode that the code does not name is `audio`.
--   * Sha1: src/lib/sha1.c, under the same names; Sha1/Blocks says what blocks are.
--   * Lfg: the generator of the padding of GameCube and Wii discs (src/lib/nintendo.c): `set_seed`,
--     `get_bytes` and `get_seed` are the functions `ngc_lfg_*`, the others have the names of the code.
--   * DataMap: the regions of a disc that files lie in (src/lib/nintendo.c): `build_data_map` and
--     `is_data_region` are the functions `ngc_*`. `qsort` is a sort by insertion: C does not say what
--     it does with equal offsets.
--   * Prelude: the names, lists, bits and words that the other modules share.
--   * Tests: a small volume, and the theorems at concrete inputs.
--
-- Integers are natural numbers, with the wrap-around of C written out where a sum, a product or a
-- shift can reach it (`u8`, `u32`, `u64`, `not64`).
--
-- Bounds: the loop over the free bits of a word has 64 rounds, one for each bit; the loop over the
-- words of a pass that ends at `scan_end` has `scan_end / 64 + 1` rounds, since each round but the
-- first starts a word; the equality with the search by single blocks shows that both are enough.
-- The loop that halves a clump recurs on the number of blocks, which falls. The walk down a tree has
-- no bound in the code: with fewer rounds than levels it gives no answer, and the theorems say that
-- more rounds than the height are enough. Every other loop runs over a count or a list.
--
-- Parameters: `pread` and `pwrite`, on an image whose end no write moves; the hash XXH64, of which
-- only its range is used; whether the file opens, its size, and whether an allocation of memory
-- succeeds; the bytes of memory behind the bitmap, which the search by words can read; and
-- `obmafs3_user_index_load`, which is an argument of `open_flags`.
--
-- Not modelled: the messages on stderr and the backtraces, the scratch buffers of threads, thread
-- pools and caches, the insertion into and removal from the map of padding regions, the other trees
-- (catalog, inodes, deduplication, metadata, tags), the compression of data blocks, the creation and
-- closing of a volume, the tools and the FUSE mount. A block size of 0, which the superblock's
-- validation refuses, is outside the theorems.
pub mod Prelude
pub mod Context
pub mod Codec
pub mod Device
pub mod Bitmap
pub mod Alloc
pub mod Btree
pub mod Superblock
pub mod Open
pub mod Refcount
pub mod CdEcc
pub mod Sha1
pub mod Lfg
pub mod JunkMap
pub mod DataMap
mod Tests
