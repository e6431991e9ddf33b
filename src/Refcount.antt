-- ===== src/Refcount.antt =====
-- Reference counts of blocks: the lookup of src/lib/refcount.c, in a B+Tree keyed by block. Only
-- counts other than 1 have a record. The leaf that was visited last is cached in the context.
pub mod Node
pub mod Set
pub mod Search
pub mod Tree
pub mod Lookup
use obmafs.Prelude.{
  ℕ, zero, suc, ◌+◌, ◌-◌, ◌*◌, ◌/◌, ◌<◌, ◌^◌, Option, none, some, Bool, true, false, List, [], ◌∷◌,
  ltb, leb, ◌==◌, ◌&&◌, if◌then◌else◌, take, drop, get_or, u16,
}
use obmafs.Context.{Ctx, Result, ok, err, Error, badmagic}
use obmafs.Codec.{unpack}
use obmafs.Codec.Patch.Numbers.{number_at}
use obmafs.Device.{Device, block_read}

-- OBMAFS3_BTREE_NODE_MAGIC
abbrev pub node_magic : ℕ
node_magic = 0x45444E4545525442

-- `struct btree_node_header`, 70 bytes: magic, record type, level, three links, number of keys,
-- length of the keys and checksum.
abbrev pub node_header_widths : List ℕ
node_header_widths = 8 ∷ 1 ∷ 1 ∷ 8 ∷ 8 ∷ 8 ∷ 2 ∷ 2 ∷ 32 ∷ []

abbrev pub node_field : List ℕ → ℕ → ℕ
node_field buf i = get_or (unpack node_header_widths buf) i 0

abbrev pub level_of : List ℕ → ℕ
level_of buf = node_field buf 2

abbrev pub keys_of : List ℕ → ℕ
keys_of buf = node_field buf 6

-- `struct refcount_record` is 12 bytes: the block and its count.
abbrev pub record_lba : List ℕ → ℕ → ℕ
record_lba buf i = number_at buf (70 + i * 12) 8

abbrev pub record_count : List ℕ → ℕ → ℕ
record_count buf i = number_at buf (70 + i * 12 + 8) 4

-- `struct btree_index_entry` is 16 bytes: a key and a child.
abbrev pub entry_key : List ℕ → ℕ → ℕ
entry_key buf i = number_at buf (70 + i * 16) 8

abbrev pub entry_child : List ℕ → ℕ → ℕ
entry_child buf i = number_at buf (70 + i * 16 + 8) 8

-- The index of a key, or where it would be inserted.
pub data Slot : Type 0 where
  at : ℕ → Slot
  insert_at : ℕ → Slot

-- The middle of the range from `lo` up to, not including, `hi`: the code keeps `hi - 1`.
abbrev pub middle : ℕ → ℕ → ℕ
middle lo hi = lo + (hi - 1 - lo) / 2

module _ (key : ℕ → ℕ) (lba : ℕ) where
  -- The loop of `refcount_leaf_find`. A round shortens the range, so that as many rounds as it has
  -- keys are enough.
  pub leaf_find : (rounds lo hi : ℕ) → Slot
  leaf_find zero lo hi = insert_at lo
  leaf_find (suc rounds) lo hi = elim (leb hi lo) [
    | true ↦ insert_at lo
    | false ↦ elim (key (middle lo hi) == lba) [
      | true ↦ at (middle lo hi)
      | false ↦ elim (ltb (key (middle lo hi)) lba) [
        | true ↦ leaf_find rounds (middle lo hi + 1) hi
        | false ↦ leaf_find rounds lo (middle lo hi)
      ]
    ]
  ]

  -- The loop of `refcount_index_find`.
  pub index_find : (rounds lo hi result : ℕ) → ℕ
  index_find zero lo hi result = result
  index_find (suc rounds) lo hi result = elim (leb hi lo) [
    | true ↦ result
    | false ↦ elim (leb (key (middle lo hi)) lba) [
      | true ↦ index_find rounds (middle lo hi + 1) hi (u16 (middle lo hi))
      | false ↦ index_find rounds lo (middle lo hi) result
    ]
  ]

-- The count of a record, or 1 without one.
pub count_at : List ℕ → Slot → ℕ
count_at buf (at i) = record_count buf i
count_at buf (insert_at i) = 1

pub leaf_count : (buf : List ℕ) (node_keys lba : ℕ) → ℕ
leaf_count buf node_keys lba = count_at buf (leaf_find (record_lba buf) lba node_keys 0 node_keys)

-- The fields `rc_leaf_*` of the context.
pub record LeafCache : Type 0 where
  pub valid : Bool
  pub buf : List ℕ
  pub lba : ℕ
  pub count : ℕ
  pub least : ℕ
  pub greatest : ℕ

pub cache_leaf : (cur : ℕ) → List ℕ → LeafCache
cache_leaf cur buf = record {
  valid = true;
  buf = buf;
  lba = cur;
  count = keys_of buf;
  least = if ltb 0 (keys_of buf) then record_lba buf 0 else 2 ^ 64 - 1;
  greatest = if ltb 0 (keys_of buf) then record_lba buf (keys_of buf - 1) else 0;
}

-- A node that was read: an error, a leaf, or the next node.
pub visit :
    (cur lba : ℕ)
    → Result (List ℕ)
    → (ℕ → Option (Result (ℕ × List ℕ)))
    → Option (Result (ℕ × List ℕ))
visit cur lba (err e) next = some (err e)
visit cur lba (ok buf) next = elim (node_field buf 0 == node_magic) [
  | false ↦ some (err badmagic)
  | true ↦ elim (ltb 0 (level_of buf)) [
    | false ↦ some (ok (cur, buf))
    | true ↦ next (entry_child buf (index_find (entry_key buf) lba (keys_of buf) 0 (keys_of buf) 0))
  ]
]

-- The answer from a leaf, which is cached.
pub answer_leaf : (lba : ℕ) → LeafCache → Result (ℕ × List ℕ) → Result ℕ × LeafCache
answer_leaf lba cache (err e) = (err e, cache)
answer_leaf lba cache (ok (cur, buf)) = (ok (leaf_count buf (keys_of buf) lba), cache_leaf cur buf)

pub answered : (lba : ℕ) → LeafCache → Option (Result (ℕ × List ℕ)) → Option (Result ℕ × LeafCache)
answered lba cache none = none
answered lba cache (some r) = some (answer_leaf lba cache r)

module _ (dev : Device) where
  open dev use {Disk}

  -- `while(1)`, from the node `cur` down to a leaf. The code has no bound on the depth: `none` is a
  -- walk that is not over after that many nodes.
  pub find_leaf : (rounds : ℕ) → Ctx → Disk → (lba cur : ℕ) → Option (Result (ℕ × List ℕ))
  find_leaf zero ctx d lba cur = none
  find_leaf (suc rounds) ctx d lba cur =
      visit cur lba (block_read dev ctx d cur ctx.sb.block_size)
        (λ child. find_leaf rounds ctx d lba child)

  -- `obmafs3_refcount_get`, on the tree whose root node is at `root`.
  pub refcount_get :
      (rounds : ℕ) → Ctx → (root : ℕ) → LeafCache → Disk → (lba : ℕ) → Option (Result ℕ × LeafCache)
  refcount_get rounds ctx root cache d lba =
      if root == 0
      then some (ok 1, cache)
      else if cache.valid && leb cache.least lba && leb lba cache.greatest
      then some (ok (leaf_count cache.buf cache.count lba), cache)
      else answered lba cache (find_leaf rounds ctx d lba root)
