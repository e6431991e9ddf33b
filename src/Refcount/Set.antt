-- ===== src/Refcount/Set.antt =====
-- `obmafs3_refcount_set`, `obmafs3_refcount_inc` and `obmafs3_refcount_dec` of src/lib/refcount.c: a
-- record is changed, put in or taken out, and nodes that are full are split up to the root.
pub mod Kept
pub mod Spot
pub mod Descent
pub mod Shape
pub mod Written
pub mod Effect
pub mod Counts
use obmafs.Prelude.{
  ℕ, zero, suc, ◌+◌, ◌-◌, ◌*◌, ◌/◌, Option, none, some, Bool, true, false, List, [], ◌∷◌, ◌++◌, ltb,
  leb, ◌==◌, if◌then◌else◌, take, drop, u8, u16, u32,
}
use mathlib.Core.Option
use obmafs.Context.{Ctx, Result, ok, err, Error, badmagic, inval, nomem}
use obmafs.Codec.Patch.Numbers.{number_at}
use obmafs.Device.{Device, block_read, block_write}
use obmafs.Btree.{TreeHeader}
use obmafs.Btree.Header.{header_write}
use obmafs.Btree.Nodes.{Outcome, alloc_node}
use obmafs.Refcount.{
  node_magic, node_field, level_of, keys_of, record_lba, entry_key, entry_child, Slot, at,
  insert_at, leaf_find, index_find, LeafCache, refcount_get,
}
use obmafs.Refcount.Node.{
  leaf_max_keys, index_max_keys, with_keys, with_left, sealed_node, record_bytes, entry_bytes,
  put_element, without_record, with_record, widened, with_new_record, all_elements, left_half,
  fresh_node,
}

-- The nodes from the root to a leaf, with the slot that was taken, the last one first.
abbrev pub Trail : Type 0
Trail = List (ℕ × ℕ)

abbrev pub slot_in : List ℕ → (lba : ℕ) → ℕ
slot_in buf lba = index_find (entry_key buf) lba (keys_of buf) 0 (keys_of buf) 0

abbrev pub find_in : List ℕ → (lba : ℕ) → Slot
find_in buf lba = leaf_find (record_lba buf) lba (keys_of buf) 0 (keys_of buf)

-- What a split hands to the level above: the first key and the block of the new node, and the first
-- key and the block of the old one.
pub record Split : Type 0 where
  pub push_key : ℕ
  pub push_child : ℕ
  pub left_first_key : ℕ
  pub left_lba : ℕ

-- A node on the way down to the leaf that is taken from, where the magic is not looked at.
pub step_down :
    (cur lba : ℕ)
    → Result (List ℕ)
    → (ℕ → Option (Result (ℕ × List ℕ)))
    → Option (Result (ℕ × List ℕ))
step_down cur lba (err e) next = some (err e)
step_down cur lba (ok buf) next = elim (ltb 0 (level_of buf)) [
  | true ↦ next (entry_child buf (slot_in buf lba))
  | false ↦ some (ok (cur, buf))
]

-- A node on the way down to the leaf that is put into.
pub step_path :
    Trail
    → (cur lba : ℕ) → Result (List ℕ)
    → (Trail → ℕ → Result (Trail × (ℕ × List ℕ)))
    → Result (Trail × (ℕ × List ℕ))
step_path path cur lba (err e) next = err e
step_path path cur lba (ok buf) next = elim (node_field buf 0 == node_magic) [
  | false ↦ err badmagic
  | true ↦ elim (ltb 0 (level_of buf)) [
    | false ↦ ok (path, (cur, buf))
    | true ↦ let slot = slot_in buf lba in next ((cur, slot) ∷ path) (entry_child buf slot)
  ]
]

-- `ctx->rc_leaf_valid = 0`
abbrev pub forget : LeafCache → LeafCache
forget cache = record cache { valid = false }

-- `xxh64` is the hash, `beyond` what lies behind the bitmap, and `mem n` says whether the `n`th
-- allocation of memory succeeds.
module _ (dev : Device) (xxh64 : List ℕ → ℕ) (beyond : ℕ → ℕ) (mem : ℕ → Bool) where
  open dev use {Disk}

  abbrev pub Change : Type 0
  Change = Outcome (Result (Unit {0})) Disk

  abbrev pub ended : Result (Unit {0}) → Ctx → TreeHeader → Disk → Change
  ended r ctx hdr d = record { result = r; ctx = ctx; hdr = hdr; disk = d }

  -- `if(rc != OBMAFS3_OK) return rc`, and then the rest.
  pub if_written : Ctx → TreeHeader → Result (Unit {0}) × Disk → (Disk → Change) → Change
  if_written ctx hdr (err e, d) rest = ended (err e) ctx hdr d
  if_written ctx hdr (ok u, d) rest = rest d

  with_lba : Result ℕ → Ctx → TreeHeader → Disk → (ℕ → Ctx → TreeHeader → Disk → Change) → Change
  with_lba (err e) ctx hdr d rest = ended (err e) ctx hdr d
  with_lba (ok lba) ctx hdr d rest = rest lba ctx hdr d

  pub with_node : Outcome (Result ℕ) Disk → (ℕ → Ctx → TreeHeader → Disk → Change) → Change
  with_node o rest = with_lba o.result o.ctx o.hdr o.disk rest

  pub with_block : Ctx → TreeHeader → Disk → Result (List ℕ) → (List ℕ → Change) → Change
  with_block ctx hdr d (err e) rest = ended (err e) ctx hdr d
  with_block ctx hdr d (ok buf) rest = rest buf

  -- The write that ends the call.
  pub last_write : Ctx → TreeHeader → Disk → (lba : ℕ) → List ℕ → Change
  last_write ctx hdr d lba buf = let (r, d') = block_write dev ctx d lba buf in ended r ctx hdr d'

  pub write_header_last : Ctx → TreeHeader → Disk → Change
  write_header_last ctx hdr d =
      let (r, d', hdr') = header_write dev xxh64 ctx d ctx.sb.refcount_lba hdr in
      ended r ctx hdr' d'

  -- The left link of the right neighbour of a node that was split; a failure is ignored.
  relinked : Ctx → Disk → (lba new_lba : ℕ) → Result (List ℕ) → Disk
  relinked ctx d lba new_lba (err e) = d
  relinked ctx d lba new_lba (ok buf) =
      (block_write dev ctx d lba (sealed_node xxh64 (with_left new_lba buf))).1

  pub relink : Ctx → Disk → (lba new_lba : ℕ) → Disk
  relink ctx d lba new_lba =
      if lba == 0
      then d
      else relinked ctx d lba new_lba (block_read dev ctx d lba ctx.sb.block_size)

  -- From `Need a new root` on.
  pub new_root : Ctx → TreeHeader → Disk → Split → Change
  new_root ctx hdr d s = with_node (alloc_node dev beyond (mem 0) ctx hdr d) (λ lba ctx₁ hdr₁ d₁.
      with_block ctx₁ hdr₁ d₁ (block_read dev ctx₁ d₁ s.left_lba ctx₁.sb.block_size) (λ old.
        let entries =
          entry_bytes s.left_first_key s.left_lba ++ entry_bytes s.push_key s.push_child in
        let buf = sealed_node xxh64 (fresh_node ctx₁ (u8 (level_of old + 1)) 0 0 2 16 entries) in
        let hdr₂ = record hdr₁ { root_node_lba = lba; total_nodes = u32 (hdr₁.total_nodes + 1) } in
        if_written ctx₁ hdr₁ (block_write dev ctx₁ d₁ lba buf)
          (λ d₂. write_header_last ctx₁ hdr₂ d₂)))

  -- A full node at `cur` is split: `elements` are all its elements with the new one, `left` and
  -- `right` how many go to each side. The rest of the call gets what is pushed up.
  pub split_node :
      (size left right level old_right cur : ℕ) (elements buf : List ℕ)
      → Bool
      → Ctx
      → TreeHeader
      → Disk
      → (Split → Ctx → TreeHeader → Disk → Change)
      → Change
  split_node size left right level old_right cur elements buf calloc_ok ctx hdr d rest =
      with_node (alloc_node dev beyond calloc_ok ctx hdr d) (λ new_lba ctx₁ hdr₁ d₁.
        let stays = sealed_node xxh64 (left_half ctx₁ size left new_lba elements buf) in
        let goes =
          sealed_node xxh64
            (fresh_node ctx₁ level cur old_right right size (drop (left * size) elements)) in
        let hdr₂ = record hdr₁ { total_nodes = u32 (hdr₁.total_nodes + 1) } in
        let split : Split = record {
          push_key = number_at elements (left * size) 8;
          push_child = new_lba;
          left_first_key = number_at elements 0 8;
          left_lba = cur;
        } in
        if_written ctx₁ hdr₁ (block_write dev ctx₁ d₁ cur stays) (λ d₂.
          if_written ctx₁ hdr₁ (block_write dev ctx₁ d₂ new_lba goes)
            (λ d₃. rest split ctx₁ hdr₂ (relink ctx₁ d₃ old_right new_lba))))

  -- `while(depth > 0)`, then the new root. `n` counts the allocations.
  pub propagate : (n : ℕ) → Trail → Split → Ctx → TreeHeader → Disk → Change
  propagate n [] s ctx hdr d = new_root ctx hdr d s
  propagate n ((parent, slot) ∷ up) s ctx hdr d =
      with_block ctx hdr d (block_read dev ctx d parent ctx.sb.block_size) (λ buf.
        let keys = keys_of buf in
        let max = index_max_keys ctx in
        let p = u16 (slot + 1) in
        let entry = entry_bytes s.push_key s.push_child in
        let fixed = put_element 16 slot (entry_bytes s.left_first_key (entry_child buf slot)) buf in
        let total = u16 (max + 1) in
        let left = total / 2 in
        elim (ltb keys max) [
          | true ↦
              if_written ctx hdr
                (block_write dev ctx d parent (sealed_node xxh64 (widened 16 keys p entry fixed)))
                (λ d'. write_header_last ctx hdr d')
          | false ↦ elim (mem n) [
            | false ↦ ended (err nomem) ctx hdr d
            | true ↦
                split_node 16 left (total - left) (level_of buf) (node_field buf 4) parent
                  (all_elements 16 max p entry fixed) fixed (mem (n + 1)) ctx hdr d
                  (λ s' ctx' hdr' d'. propagate (n + 2) up s' ctx' hdr' d')
          ]
        ])

  -- The leaf is full.
  pub split_leaf : Trail → (cur p lba count : ℕ) → List ℕ → Ctx → TreeHeader → Disk → Change
  split_leaf path cur p lba count buf ctx hdr d =
      let max = leaf_max_keys ctx in
      let total = u16 (max + 1) in
      let left = total / 2 in
      elim (mem 1) [
        | false ↦ ended (err nomem) ctx hdr d
        | true ↦
            split_node 12 left (total - left) 0 (node_field buf 4) cur
              (all_elements 12 max p (record_bytes lba count) buf) buf (mem 2) ctx hdr d
              (λ s ctx' hdr' d'. propagate 3 path s ctx' hdr' d')
      ]

  -- A record in the leaf at `cur`.
  pub put_in_leaf : Trail → (cur lba count : ℕ) → List ℕ → Slot → Ctx → TreeHeader → Disk → Change
  put_in_leaf path cur lba count buf (at i) ctx hdr d =
      last_write ctx hdr d cur (with_record xxh64 i lba count buf)
  put_in_leaf path cur lba count buf (insert_at p) ctx hdr d =
      if ltb (keys_of buf) (leaf_max_keys ctx)
      then last_write ctx hdr d cur (with_new_record xxh64 (keys_of buf) p lba count buf)
      else split_leaf path cur p lba count buf ctx hdr d

  -- The first record of an empty tree.
  pub first_leaf : Ctx → TreeHeader → Disk → (lba count : ℕ) → Change
  first_leaf ctx hdr d lba count =
      with_node (alloc_node dev beyond (mem 0) ctx hdr d) (λ new_lba ctx₁ hdr₁ d₁.
        let buf = sealed_node xxh64 (fresh_node ctx₁ 0 0 0 1 12 (record_bytes lba count)) in
        let hdr₂ = record hdr₁ { root_node_lba = new_lba; total_nodes = 1 } in
        if_written ctx₁ hdr₁ (block_write dev ctx₁ d₁ new_lba buf)
          (λ d₂. write_header_last ctx₁ hdr₂ d₂))

  -- From the root to a leaf through at most `left` index nodes (REFCOUNT_BTREE_MAX_DEPTH).
  pub descend : (left : ℕ) → Ctx → Disk → Trail → (lba cur : ℕ) → Result (Trail × (ℕ × List ℕ))
  descend zero ctx d path lba cur =
      step_path path cur lba (block_read dev ctx d cur ctx.sb.block_size) (λ path' child. err inval)
  descend (suc left) ctx d path lba cur =
      step_path path cur lba (block_read dev ctx d cur ctx.sb.block_size)
        (λ path' child. descend left ctx d path' lba child)

  put_found : Ctx → TreeHeader → Disk → (lba count : ℕ) → Result (Trail × (ℕ × List ℕ)) → Change
  put_found ctx hdr d lba count (err e) = ended (err e) ctx hdr d
  put_found ctx hdr d lba count (ok (path, (cur, buf))) =
      put_in_leaf path cur lba count buf (find_in buf lba) ctx hdr d

  pub put_count : Ctx → TreeHeader → Disk → (lba count : ℕ) → Change
  put_count ctx hdr d lba count =
      if hdr.root_node_lba == 0
      then first_leaf ctx hdr d lba count
      else put_found ctx hdr d lba count (descend 8 ctx d [] lba hdr.root_node_lba)

  -- `while(1)`, from `cur` down; the code has no bound here.
  pub walk_down : (rounds : ℕ) → Ctx → Disk → (lba cur : ℕ) → Option (Result (ℕ × List ℕ))
  walk_down zero ctx d lba cur = none
  walk_down (suc rounds) ctx d lba cur =
      step_down cur lba (block_read dev ctx d cur ctx.sb.block_size)
        (λ child. walk_down rounds ctx d lba child)

  take_from_leaf : (cur : ℕ) → List ℕ → Slot → Ctx → TreeHeader → Disk → Change
  take_from_leaf cur buf (at i) ctx hdr d =
      last_write ctx hdr d cur (without_record xxh64 (keys_of buf) i buf)
  take_from_leaf cur buf (insert_at p) ctx hdr d = ended (ok tt) ctx hdr d

  take_found : Ctx → TreeHeader → Disk → (lba : ℕ) → Option (Result (ℕ × List ℕ)) → Option Change
  take_found ctx hdr d lba none = none
  take_found ctx hdr d lba (some (err e)) = some (ended (err e) ctx hdr d)
  take_found ctx hdr d lba (some (ok (cur, buf))) =
      some (take_from_leaf cur buf (find_in buf lba) ctx hdr d)

  pub take_count : (rounds : ℕ) → Ctx → TreeHeader → Disk → (lba : ℕ) → Option Change
  take_count rounds ctx hdr d lba =
      if hdr.root_node_lba == 0
      then some (ended (ok tt) ctx hdr d)
      else take_found ctx hdr d lba (walk_down rounds ctx d lba hdr.root_node_lba)

  -- `obmafs3_refcount_set`. The cached leaf is never valid afterwards.
  pub refcount_set : (rounds : ℕ) → Ctx → TreeHeader → Disk → (lba count : ℕ) → Option Change
  refcount_set rounds ctx hdr d lba count =
      if leb count 1 then take_count rounds ctx hdr d lba else some (put_count ctx hdr d lba count)

  pub inc_with :
      (rounds : ℕ)
      → Ctx
      → TreeHeader
      → Disk
      → (lba : ℕ) → Option (Result ℕ × LeafCache)
      → Option (Change × LeafCache)
  inc_with rounds ctx hdr d lba none = none
  inc_with rounds ctx hdr d lba (some (err e, cache)) = some (ended (err e) ctx hdr d, cache)
  inc_with rounds ctx hdr d lba (some (ok cur, cache)) =
      Option.map (λ c. (c, forget cache)) (refcount_set rounds ctx hdr d lba (u32 (cur + 1)))

  -- `obmafs3_refcount_inc`
  pub refcount_inc :
      (rounds : ℕ) → Ctx → TreeHeader → LeafCache → Disk → (lba : ℕ) → Option (Change × LeafCache)
  refcount_inc rounds ctx hdr cache d lba =
      inc_with rounds ctx hdr d lba (refcount_get dev rounds ctx hdr.root_node_lba cache d lba)

  pub dec_with :
      (rounds : ℕ)
      → Ctx
      → TreeHeader
      → Disk
      → (lba : ℕ) → Option (Result ℕ × LeafCache)
      → Option (Change × (LeafCache × ℕ))
  dec_with rounds ctx hdr d lba none = none
  dec_with rounds ctx hdr d lba (some (err e, cache)) = some (ended (err e) ctx hdr d, (cache, 0))
  dec_with rounds ctx hdr d lba (some (ok cur, cache)) =
      if leb cur 1
      then some (ended (ok tt) ctx hdr d, (cache, 1))
      else Option.map (λ c. (c, (forget cache, cur - 1)))
          (refcount_set rounds ctx hdr d lba (cur - 1))

  -- `obmafs3_refcount_dec`. The last number is `*new_count` where the call succeeds.
  pub refcount_dec :
      (rounds : ℕ)
      → Ctx
      → TreeHeader
      → LeafCache
      → Disk
      → (lba : ℕ) → Option (Change × (LeafCache × ℕ))
  refcount_dec rounds ctx hdr cache d lba =
      dec_with rounds ctx hdr d lba (refcount_get dev rounds ctx hdr.root_node_lba cache d lba)
