-- ===== src/JunkMap.antt =====
-- The map of padding regions of disc images: the searches and the lookup of src/lib/junk_map.c, in a
-- B+Tree whose keys are an inode and an offset.
pub mod Order
pub mod Tree
pub mod Lookup
pub mod Find
use obmafs.Prelude.{
  ℕ, zero, suc, ◌+◌, ◌-◌, ◌*◌, Option, none, some, Bool, true, false, List, [], ◌∷◌, ltb, leb, ◌==◌,
  if◌then◌else◌, not, u64,
}
use obmafs.Context.{Ctx, Result, ok, err, Error, badmagic, notfound}
use obmafs.Codec.Patch.Numbers.{number_at}
use obmafs.Device.{Device, block_read}
use obmafs.Refcount.{node_magic, node_field, level_of, keys_of, middle, Slot, at, insert_at}

-- What `jm_key_cmp` gives: -1, 0 or 1.
pub data Cmp : Type 0 where
  below : Cmp
  same : Cmp
  above : Cmp

pub jm_key_cmp : (id_a off_a id_b off_b : ℕ) → Cmp
jm_key_cmp id_a off_a id_b off_b =
    if ltb id_a id_b
    then below
    else if ltb id_b id_a
    then above
    else if ltb off_a off_b
    then below
    else if ltb off_b off_a
    then above
    else same

-- `struct junk_map_record` is 94 bytes.
pub record JunkRecord : Type 0 where
  pub inode_id : ℕ
  pub offset : ℕ
  pub length : ℕ
  pub partition_index : ℕ
  pub seed : List ℕ

pub words_at : List ℕ → (offset n : ℕ) → List ℕ
words_at buf o zero = []
words_at buf o (suc n) = number_at buf o 4 ∷ words_at buf (o + 4) n

abbrev pub record_at : List ℕ → ℕ → JunkRecord
record_at buf i = record {
  inode_id = number_at buf (70 + i * 94) 8;
  offset = number_at buf (70 + i * 94 + 8) 8;
  length = number_at buf (70 + i * 94 + 16) 8;
  partition_index = number_at buf (70 + i * 94 + 24) 2;
  seed = words_at buf (70 + i * 94 + 26) 17;
}

-- `struct junk_map_index_entry` is 24 bytes.
abbrev pub entry_id : List ℕ → ℕ → ℕ
entry_id buf i = number_at buf (70 + i * 24) 8

abbrev pub entry_offset : List ℕ → ℕ → ℕ
entry_offset buf i = number_at buf (70 + i * 24 + 8) 8

abbrev pub entry_lba : List ℕ → ℕ → ℕ
entry_lba buf i = number_at buf (70 + i * 24 + 16) 8

module _ (buf : List ℕ) (inode_id offset : ℕ) where
  -- The loop of `jm_leaf_find`: a round shortens the range from `lo` up to, not including, `hi`.
  pub jm_leaf_loop : (rounds lo hi : ℕ) → Slot
  jm_leaf_loop zero lo hi = insert_at lo
  jm_leaf_loop (suc rounds) lo hi =
      let mid = middle lo hi in
      let rec = record_at buf mid in
      let higher = jm_leaf_loop rounds (mid + 1) hi in
      let lower = jm_leaf_loop rounds lo mid in
      if leb hi lo
      then insert_at lo
      else elim (jm_key_cmp rec.inode_id rec.offset inode_id offset) [
        | same ↦ at mid
        | below ↦ higher
        | above ↦ lower
      ]

  pub jm_leaf_find : (nkeys : ℕ) → Slot
  jm_leaf_find nkeys = jm_leaf_loop nkeys 0 nkeys

  -- The loop of `jm_index_find` from the entry `i` on.
  pub jm_index_loop : (rounds i slot : ℕ) → ℕ
  jm_index_loop zero i slot = slot
  jm_index_loop (suc rounds) i slot =
      let rest = jm_index_loop rounds (i + 1) i in
      elim (jm_key_cmp (entry_id buf i) (entry_offset buf i) inode_id offset) [
        | above ↦ slot
        | same ↦ rest
        | below ↦ rest
      ]

  pub jm_index_find : (nkeys : ℕ) → ℕ
  jm_index_find nkeys = jm_index_loop (nkeys - 1) 1 0

  -- The search in the leaf, from the last record down; the argument is the number of records left.
  pub covering : ℕ → Result JunkRecord
  covering zero = err notfound
  covering (suc i) =
      let rest = covering i in
      let rec = record_at buf i in
      if not (rec.inode_id == inode_id)
      then rest
      else if ltb offset rec.offset
      then rest
      else if ltb offset (u64 (rec.offset + rec.length))
      then ok rec
      else err notfound

module _ (inode_id offset : ℕ) where
  -- A node that was read: an error, the answer from a leaf, or the next node.
  pub jm_visit : Result (List ℕ) → (ℕ → Option (Result JunkRecord)) → Option (Result JunkRecord)
  jm_visit (err e) next = some (err e)
  jm_visit (ok buf) next = elim (node_field buf 0 == node_magic) [
    | false ↦ some (err badmagic)
    | true ↦ elim (level_of buf == 0) [
      | true ↦ some (covering buf inode_id offset (keys_of buf))
      | false ↦ next (entry_lba buf (jm_index_find buf inode_id offset (keys_of buf)))
    ]
  ]

  module _ (dev : Device) where
    -- `while(1)`, from the node `lba` down; the code has no bound here.
    pub jm_walk : (rounds : ℕ) → Ctx → dev.Disk → (lba : ℕ) → Option (Result JunkRecord)
    jm_walk zero ctx d lba = none
    jm_walk (suc rounds) ctx d lba =
        jm_visit (block_read dev ctx d lba ctx.sb.block_size) (λ child. jm_walk rounds ctx d child)

    -- `obmafs3_junk_map_lookup`, on the tree whose root node is at `root`.
    pub junk_map_lookup : (rounds : ℕ) → Ctx → (root : ℕ) → dev.Disk → Option (Result JunkRecord)
    junk_map_lookup rounds ctx root d =
        if ctx.sb.junk_map_lba == 0
        then some (err notfound)
        else if root == 0
        then some (err notfound)
        else jm_walk rounds ctx d root
